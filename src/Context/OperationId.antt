-- ===== src/Context/OperationId.antt =====
-- The idempotency keys of idempotency.go: when two of them agree.
use Prim.Native.String.{String, count, ◌++◌}
use text.Mathlib.TextLemmas.{append_inj, append_cancel_left, append_cancel_right}
use go_orchestrator.Prelude.{◌≡◌, refl}
use go_orchestrator.Context.{operation_id, compensation_operation_id}

-- For execution IDs of one length (`idgen` makes 32 characters), two steps' keys are equal only for
-- the same execution and step name. So are two compensation keys. The key of an action is that of a
-- compensation only if the action's step is named as the compensated step with "/compensate" added,
-- in the same execution.
pub operation_id_inj :
    (e e' s s' : String)
    → count e ≡ count e'
    → (operation_id e s ≡ operation_id e' s' → (e ≡ e') × (s ≡ s'))
      × (compensation_operation_id e s ≡ compensation_operation_id e' s' → (e ≡ e') × (s ≡ s'))
      × (operation_id e s ≡ compensation_operation_id e' s' → (e ≡ e') × (s ≡ s' ++ "/compensate"))
unfolding operation_id compensation_operation_id
operation_id_inj e e' s s' h = (
  λ p. let q = append_inj {s₁ = e} {s₂ = e'} p h in (q.0, append_cancel_left "/" s s' q.1),
  λ p.
      let q = append_inj {s₁ = e} {s₂ = e'} p h in
      (q.0, append_cancel_right s s' "/compensate" (append_cancel_left "/" _ _ q.1)),
  λ p. let q = append_inj {s₁ = e} {s₂ = e'} p h in (q.0, append_cancel_left "/" _ _ q.1),
)

-- A step may be named as another step with "/compensate" added: then its action carries the very
-- key of the other step's compensation, in every execution.
pub operation_id_collides :
    (e s : String) → operation_id e (s ++ "/compensate") ≡ compensation_operation_id e s
unfolding operation_id compensation_operation_id
operation_id_collides e s = refl
