-- ===== src/Engine/Invariants/Keys.antt =====
-- What a run of Execute of execute.go says of itself to the store, the locker and the steps: the IDs
-- of idempotency.go and the identity of the execution.
use go_orchestrator.Prelude.{ℕ, ◌≡◌, refl, ap, ◌∙◌, Option, All}
use go_orchestrator.Context.{Context, operation_id_of, operation_id, compensation_operation_id}
use go_orchestrator.Interfaces.{Runtime}
use go_orchestrator.Definition.{Definition, freeze}
use go_orchestrator.Engine.Monad.{Run, Call, saved, leased, acted, undone}
use go_orchestrator.Engine.Resume.{initial, execute}
use go_orchestrator.Engine.Kept.{Identity, identity, IsKept}
use go_orchestrator.Engine.Kept.Execute.{Free, IsApart-Free, execute-Good}

-- A call is about the execution with this identity, and an action or a compensation gets an operation
-- ID of its own, made of the execution's ID and the step's name.
abbrev pub IsOwn : {D : Type 0} → Identity D → Call D → Type 0
IsOwn v (saved x e) = identity x ≡ v
IsOwn v (leased id e) = id ≡ v.0
IsOwn v (acted name ctx x e) = operation_id_of ctx ≡ operation_id v.0 name
IsOwn v (undone name ctx x e) = operation_id_of ctx ≡ compensation_operation_id v.0 name

module _ {W D : Type 0} where
  IsOwn-IsKept : (rs : Run W D) (v : Identity D) → IsKept rs v Free (λ s. All (IsOwn v) s.calls)
  IsOwn-IsKept rs v = record {
    world = record {
      apart = IsApart-Free rs.runtime rs.definition rs.locker;
      moves = λ s w m h. h;
    };
    allocates = λ s p h. h;
    changes = λ s x e e' m h. h;
    publishes = λ s ev e n r h. h;
    leases = λ s l ctx what e at h. (ap (λ (u : Identity D). u.0) e, h);
    saves = λ s ctx e l h. (e, h);
    acts = λ s name ctx x e i o h. (o ∙ ap (λ (u : Identity D). operation_id u.0 name) i, h);
    undoes = λ s name ctx x e i o h.
        (o ∙ ap (λ (u : Identity D). compensation_operation_id u.0 name) i, h);
  }

  -- In a run of `Execute`, whether it returns or panics, the ID, the saga's name, the input, the time
  -- of creation and the names of the steps of the execution never change, and every execution that
  -- is saved has the same ones. Every lease is asked for under the execution's ID. The context of
  -- every attempt of a step carries the operation ID that is made of the execution's ID and the
  -- step's name, so it is the same for all attempts, and the context of every compensation the one
  -- for compensations.
  pub execute-identity :
      (r : Runtime W) (d : Definition W D) (ctx : Context) (input : Option D) (pointer : ℕ) (w : W)
      → let v = identity (initial r (freeze d) input pointer w).exec in
        let s = (execute r d ctx input pointer w).1.1 in
        (identity s.exec ≡ v) × All (IsOwn v) s.calls
  execute-identity r d ctx input pointer w =
      execute-Good r d Free _ ctx input pointer w (λ w. tt) (λ owner. IsOwn-IsKept _ _) (refl, tt)
