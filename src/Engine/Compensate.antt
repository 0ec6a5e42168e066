-- ===== src/Engine/Compensate.antt =====
-- execute.go: compensate, invokeCompensate, anySucceeded, finishCompensating, abort and
-- resumeCompensating.
use Prim.Native.String.{◌++◌}
use go_orchestrator.Prelude.{
  ℕ, zero, suc, Bool, true, false, not, ◌||◌, Option, none, some, List, [], ◌∷◌, any, take,
  get_elem?, if◌then◌else◌,
}
use go_orchestrator.Status.{Status, StepStatus, step_status_eq}
use go_orchestrator.Errors.{Error, message, compensation_failed, error_text}
use go_orchestrator.Context.{Context, with_operation_id, without_cancel, compensation_operation_id}
use go_orchestrator.Execution.{Execution, StepExecution}
use go_orchestrator.Definition.{StepDefinition, CompensateFunc}
use go_orchestrator.Engine.Monad.{
  M, Run, ◌>>=◌, ◌>>◌, pure, throw, index_out_of_range, ask_outside, record_call, undone, get_exec,
  put_exec, get_step, put_step, unless_error,
}
use go_orchestrator.Engine.Notify.{span_context, start_span, end_span}
use go_orchestrator.Engine.Persist.{transition_exec, transition_step}

-- The statuses that `resumeCompensating` looks for.
abbrev pub ran : StepStatus → Bool
ran StepStatus.succeeded = true
ran StepStatus.compensating = true
ran StepStatus.compensated = true
ran StepStatus.compensation_failed = true
ran _ = false

module _ {D : Type 0} where
  abbrev pub has_status : StepStatus → StepExecution D → Bool
  has_status status s = step_status_eq s.status status

  -- `anySucceeded`.
  abbrev pub any_succeeded : List (StepExecution D) → Bool
  any_succeeded steps = any (has_status StepStatus.succeeded) steps

  -- The last loop of `compensate`: the first `failed_at` steps are read once more.
  abbrev pub all_compensated : ℕ → List (StepExecution D) → Bool
  all_compensated failed_at steps =
      not (any (has_status StepStatus.compensation_failed) (take failed_at steps))

  -- The loop of `resumeCompensating`, from index `i` on.
  abbrev pub find_failed_at : ℕ → ℕ → List (StepExecution D) → ℕ
  find_failed_at i failed_at [] = failed_at
  find_failed_at i failed_at (s ∷ steps) =
      find_failed_at (suc i) (if ran s.status then suc i else failed_at) steps

  -- The results of `compensate`.
  abbrev pub verdict : ℕ → Execution D → Option Error → Bool × Option Error
  verdict failed_at exec none = (all_compensated failed_at exec.steps, none)
  verdict failed_at exec (some e) = (false, some e)

module _ {W D : Type 0} where
  -- `rs.steps[i]`.
  abbrev pub get_definition : Run W D → ℕ → M W D (StepDefinition W D)
  get_definition rs i = elim (get_elem? rs.definition.steps i) [
    | none ↦ throw index_out_of_range
    | some step ↦ pure step
  ]

  -- `invokeCompensate`.
  unfoldable pub invoke_compensate :
      Run W D → Context → StepExecution D → CompensateFunc W D → M W D (Option Error)
  unfolding start_span end_span
  invoke_compensate rs ctx step_exec compensate = do
    exec ← get_exec
    let ctx' = with_operation_id ctx (compensation_operation_id exec.id step_exec.name)
    let name = "step:" ++ (step_exec.name ++ ":compensate")
    start_span rs ctx' name
    let ctx'' = span_context rs ctx' name
    e ← ask_outside (compensate ctx'' step_exec.output)
    record_call (undone step_exec.name ctx'' step_exec.output e)
    end_span rs ctx' name
    pure e

  -- The end of a round of `compensate`, by the error of the compensating action.
  unfoldable pub settle : Run W D → Context → ℕ → Option Error → M W D (Option Error)
  settle rs ctx i none = transition_step rs ctx i StepStatus.compensated
  settle rs ctx i (some c) = do
    step_exec ← get_step i
    put_step i (record step_exec { error = error_text rs.runtime.format c })
    transition_step rs ctx i StepStatus.compensation_failed

  -- The rest of the round for a step that has something to undo, once it is `compensating`.
  unfoldable pub undo : Run W D → Context → ℕ → CompensateFunc W D → M W D (Option Error)
  unfolding invoke_compensate settle
  undo rs ctx i compensate = do
    step_exec ← get_step i
    c ← invoke_compensate rs ctx step_exec compensate
    settle rs ctx i c

  -- A step that has succeeded is first marked.
  unfoldable pub begin_undo : Run W D → Context → ℕ → StepStatus → M W D (Option Error)
  begin_undo rs ctx i StepStatus.succeeded = transition_step rs ctx i StepStatus.compensating
  begin_undo rs ctx i _ = pure none

  -- The round for a step that has succeeded or was interrupted, by its compensating action.
  unfoldable pub undo_with :
      Run W D → Context → ℕ → StepExecution D → Option (CompensateFunc W D) → M W D (Option Error)
  unfolding begin_undo undo
  undo_with rs ctx i step_exec none = pure none
  undo_with rs ctx i step_exec (some compensate) = do
    put_exec (λ exec. record exec { current_step = step_exec.name })
    e ← begin_undo rs ctx i step_exec.status
    unless_error e (undo rs ctx i compensate)

  -- The tests at the head of a round of `compensate`: nothing to do, or the step is undone.
  unfoldable pub compensate_step : Run W D → Context → ℕ → StepExecution D → M W D (Option Error)
  unfolding undo_with
  compensate_step rs ctx i step_exec =
      if has_status StepStatus.succeeded step_exec || has_status StepStatus.compensating step_exec
      then (get_definition rs i >>= λ step. undo_with rs ctx i step_exec step.compensate)
      else pure none

  -- The loop of `compensate`, over the indices below the first argument, downwards.
  unfoldable pub compensate_loop : ℕ → Run W D → Context → M W D (Option Error)
  unfolding compensate_step
  compensate_loop zero rs ctx = pure none
  compensate_loop (suc i) rs ctx = do
    step_exec ← get_step i
    e ← compensate_step rs ctx i step_exec
    unless_error e (compensate_loop i rs ctx)

  -- `compensate`: whether all went well, and the error that broke it off.
  unfoldable pub compensate : Run W D → Context → ℕ → M W D (Bool × Option Error)
  unfolding compensate_loop
  compensate rs ctx failed_at = do
    e ← compensate_loop failed_at rs ctx
    exec ← get_exec
    pure (verdict failed_at exec e)

  -- `finishCompensating` after `compensate`.
  unfoldable pub conclude : Run W D → Context → Error → Bool × Option Error → M W D (Option Error)
  conclude rs ctx original (ok, some e) = pure (some e)
  conclude rs ctx original (true, none) = do
    e ← transition_exec rs ctx Status.compensated
    unless_error e (pure (some original))
  conclude rs ctx original (false, none) = do
    e ← transition_exec rs ctx Status.compensation_failed
    unless_error e (pure (some (compensation_failed original)))

  -- `finishCompensating`.
  unfoldable pub finish_compensating : Run W D → Context → ℕ → Error → M W D (Option Error)
  unfolding compensate conclude
  finish_compensating rs ctx failed_at original = do
    result ← compensate rs (without_cancel ctx) failed_at
    put_exec (λ exec. record exec { current_step = "" })
    conclude rs ctx original result

  -- The two ways of `abort`, by whether a step before the failed one has succeeded.
  unfoldable pub abort_with : Run W D → Context → ℕ → Error → Bool → M W D (Option Error)
  unfolding finish_compensating
  abort_with rs ctx failed_at original false = do
    e ← transition_exec rs ctx Status.failed
    unless_error e (pure (some original))
  abort_with rs ctx failed_at original true = do
    e ← transition_exec rs ctx Status.compensating
    unless_error e (finish_compensating rs ctx failed_at original)

  -- `abort`. The slice `exec.Steps[:failedAt]` is never out of range: `failedAt` is a step's index.
  unfoldable pub abort : Run W D → Context → ℕ → Error → M W D (Option Error)
  unfolding abort_with
  abort rs ctx failed_at original = do
    put_exec (λ exec. record exec { error = error_text rs.runtime.format original })
    exec ← get_exec
    abort_with rs ctx failed_at original (any_succeeded (take failed_at exec.steps))

  -- `resumeCompensating`.
  unfoldable pub resume_compensating : Run W D → Context → M W D (Option Error)
  unfolding finish_compensating
  resume_compensating rs ctx = do
    exec ← get_exec
    finish_compensating rs ctx (find_failed_at 0 0 exec.steps) (message exec.error)
