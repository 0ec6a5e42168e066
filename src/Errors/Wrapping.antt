-- ===== src/Errors/Wrapping.antt =====
-- What callers see through the wrappers of errors.go.
use go_orchestrator.Prelude.{String, ◌≡◌, refl, true}
use go_orchestrator.Errors.{
  Error, Target, wrap, compensation_failed, step_error, non_retryable, error_is, is_non_retryable,
}

-- The wrappers of errors.go around a cause.
pub data Wraps (cause : Error) : Error → Type 0 where
  itself : Wraps cause cause
  in_step : (step : String) {e : Error} → Wraps cause e → Wraps cause (step_error step e)
  in_mark : {e : Error} → Wraps cause e → Wraps cause (non_retryable e)
  in_message : (text : String) {e : Error} → Wraps cause e → Wraps cause (wrap text e)
  in_failed : {e : Error} → Wraps cause e → Wraps cause (compensation_failed e)

is_in_failed :
    (e : Error) (t : Target) → error_is e t ≡ true → error_is (compensation_failed e) t ≡ true
unfolding error_is
is_in_failed e Target.compensation_failed h = refl
is_in_failed e _ h = h

-- However deep the wrappers of a step failure, a retry mark, a message or a failed compensation
-- are nested around a cause, `errors.Is` still finds in the whole what it finds in the cause, and
-- the whole counts as not retryable if the cause does.
pub Wraps-is :
    {cause e : Error}
    → Wraps cause e
    → ((t : Target) → error_is cause t ≡ true → error_is e t ≡ true)
      × (is_non_retryable cause ≡ true → is_non_retryable e ≡ true)
unfolding error_is is_non_retryable
Wraps-is itself = (λ t h. h, λ h. h)
Wraps-is (in_step s w) = (λ t h. (Wraps-is w).0 t h, λ h. (Wraps-is w).1 h)
Wraps-is (in_mark w) = (λ t h. (Wraps-is w).0 t h, λ h. refl)
Wraps-is (in_message s w) = (λ t h. (Wraps-is w).0 t h, λ h. (Wraps-is w).1 h)
Wraps-is (in_failed {e = e} w) =
    (λ t h. is_in_failed e t ((Wraps-is w).0 t h), λ h. (Wraps-is w).1 h)
