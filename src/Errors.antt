-- ===== src/Errors.antt =====
-- errors.go, the error values of lock.go and recovery.go, and what the engine uses of Go's `errors`
-- and `fmt`: an error is a tree of wrapped errors.
pub mod Wrapping
use Prim.Native.String.{◌++◌}
use go_orchestrator.Prelude.{ℕ, Bool, true, false, String, ◌||◌, ◌==◌, Option, none, some}
use go_orchestrator.Prelude.Int.{ℤ}
use go_orchestrator.Status.{Status, StepStatus, status_text, step_status_text}

-- What `errors.Is` is asked about: a sentinel, or the pointer to one timeout error.
pub data Target : Type 0 where
  compensation_failed execution_not_found recovery_skipped deadline_exceeded canceled : Target
  pointer : ℕ → Target

-- `message` is an error with a text and nothing below it: `errors.New`, or one that a step, a store
-- or a caller made. The two timeout errors are compared by their address, the first argument.
pub data Error : Type 0 where
  message : String → Error
  wrap : String → Error → Error
  compensation_failed : Error → Error
  execution_not_found recovery_skipped deadline_exceeded canceled : Error
  step_error : String → Error → Error
  non_retryable : Error → Error
  saga_timeout : ℕ → String → ℤ → Error
  step_timeout : ℕ → String → ℤ → Error
  execution_locked : String → Error
  invalid_transition : Status → Status → Error
  invalid_step_transition : String → StepStatus → StepStatus → Error

-- The two verbs of `fmt` that are not plain insertion: `%q` of a text and `%s` of a duration.
pub record Format : Type 0 where
  pub quote : String → String
  pub duration : ℤ → String

-- `Error()` of each type. `wrap s e` is `fmt.Errorf("…: %w", e)` with the text `s` in front, and
-- `compensation_failed e` is `fmt.Errorf("%w: %w", ErrCompensationFailed, e)`.
unfoldable pub error_text : Format → Error → String
error_text f (message s) = s
error_text f (wrap s e) = s ++ ": " ++ error_text f e
error_text f (compensation_failed e) = "saga: compensation failed" ++ ": " ++ error_text f e
error_text f execution_not_found = "saga: execution not found"
error_text f recovery_skipped = "saga: recovery skipped: execution has an in-flight step"
error_text f deadline_exceeded = "context deadline exceeded"
error_text f canceled = "context canceled"
error_text f (step_error s e) = "saga: step " ++ f.quote s ++ ": " ++ error_text f e
error_text f (non_retryable e) = error_text f e
error_text f (saga_timeout p s t) =
    "saga: " ++ f.quote s ++ " exceeded its " ++ f.duration t ++ " timeout"
error_text f (step_timeout p s t) =
    "saga: step " ++ f.quote s ++ " exceeded its " ++ f.duration t ++ " timeout"
error_text f (execution_locked s) =
    "saga: execution " ++ f.quote s ++ " is locked by another worker"
error_text f (invalid_transition a b) =
    "saga: invalid status transition " ++ status_text a ++ " -> " ++ status_text b
error_text f (invalid_step_transition s a b) =
    "saga: invalid step "
    ++ f.quote s
    ++ " status transition "
    ++ step_status_text a
    ++ " -> "
    ++ step_status_text b

-- `errors.Is(err, target)`: down the chain of `Unwrap`. A timeout error unwraps to
-- `context.DeadlineExceeded`, and "%w: %w" has two branches.
unfoldable pub error_is : Error → Target → Bool
error_is (wrap s e) t = error_is e t
error_is (compensation_failed e) Target.compensation_failed = true
error_is (compensation_failed e) t = error_is e t
error_is execution_not_found Target.execution_not_found = true
error_is recovery_skipped Target.recovery_skipped = true
error_is deadline_exceeded Target.deadline_exceeded = true
error_is canceled Target.canceled = true
error_is (step_error s e) t = error_is e t
error_is (non_retryable e) t = error_is e t
error_is (saga_timeout p s d) Target.deadline_exceeded = true
error_is (saga_timeout p s d) (Target.pointer q) = p == q
error_is (step_timeout p s d) Target.deadline_exceeded = true
error_is (step_timeout p s d) (Target.pointer q) = p == q
error_is _ t = false

-- `NonRetryable`: nil stays nil.
unfoldable pub mark_non_retryable : Option Error → Option Error
mark_non_retryable none = none
mark_non_retryable (some e) = some (non_retryable e)

-- `isNonRetryable`: `errors.As` finds a `*nonRetryableError` in the chain.
unfoldable pub is_non_retryable : Error → Bool
is_non_retryable (non_retryable e) = true
is_non_retryable (wrap s e) = is_non_retryable e
is_non_retryable (compensation_failed e) = is_non_retryable e
is_non_retryable (step_error s e) = is_non_retryable e
is_non_retryable _ = false
