-- ===== src/Engine/Running.antt =====
-- execute.go: resumeRunning.
use go_orchestrator.Prelude.{ℕ, suc, String, Option, none, some, List, [], ◌∷◌, drop, if◌then◌else◌}
use go_orchestrator.Status.{Status, StepStatus}
use go_orchestrator.Errors.{Error, message, step_error, error_text}
use go_orchestrator.Context.{Context}
use go_orchestrator.Execution.{Execution, StepExecution}
use go_orchestrator.Definition.{StepDefinition}
use go_orchestrator.Engine.Monad.{
  M, Run, ◌>>=◌, ◌>>◌, pure, poll, get_exec, put_exec, get_step, put_step, unless_error,
}
use go_orchestrator.Engine.Persist.{transition_exec, transition_step}
use go_orchestrator.Engine.Attempts.{SagaTimeout, run_step}
use go_orchestrator.Engine.Compensate.{has_status, abort}

module _ {D : Type 0} where
  -- The first loop of `resumeRunning`: the first failed step, from index `i` on.
  abbrev pub find_failed : ℕ → List (StepExecution D) → Option (ℕ × StepExecution D)
  find_failed i [] = none
  find_failed i (s ∷ steps) =
      if has_status StepStatus.failed s then some (i, s) else find_failed (suc i) steps

  -- The second loop of `resumeRunning`: where to start, and with what data.
  abbrev pub find_start : ℕ → Option D → List (StepExecution D) → ℕ × Option D
  find_start i data_in [] = (i, data_in)
  find_start i data_in (s ∷ steps) =
      if has_status StepStatus.succeeded s then find_start (suc i) s.output steps else (i, data_in)

module _ {W D : Type 0} where
  abbrev pub set_current : String → M W D (Unit {0})
  set_current name = put_exec (λ exec. record exec { current_step = name })

  -- The part of a round of the main loop after `runStep`.
  unfoldable pub after_step :
      Run W D
      → Context
      → ℕ
      → (Option D → M W D (Option Error))
      → Option D × Option Error
      → M W D (Option Error)
  after_step rs ctx i next (out, some step_err) = do
    step_exec ← get_step i
    put_step i (record step_exec { error = error_text rs.runtime.format step_err })
    e ← transition_step rs ctx i StepStatus.failed
    unless_error e (do set_current ""; abort rs ctx i step_err)
  after_step rs ctx i next (out, none) = do
    step_exec ← get_step i
    put_step i (record step_exec { output = out })
    e ← transition_step rs ctx i StepStatus.succeeded
    unless_error e (next out)

  -- A pending step is first marked as running.
  unfoldable pub begin_step : Run W D → Context → ℕ → StepStatus → M W D (Option Error)
  begin_step rs ctx i StepStatus.pending = transition_step rs ctx i StepStatus.running
  begin_step rs ctx i _ = pure none

  -- A round of the main loop, once the context has been looked at.
  unfoldable pub forward_step :
      Run W D
      → Context
      → SagaTimeout
      → ℕ
      → StepDefinition W D
      → Option D
      → (Option D → M W D (Option Error))
      → Option Error
      → M W D (Option Error)
  unfolding after_step begin_step
  forward_step rs ctx late i step data_in next (some why) = do set_current ""; abort rs ctx i why
  forward_step rs ctx late i step data_in next none = do
    set_current step.name
    step_exec ← get_step i
    e ← begin_step rs ctx i step_exec.status
    unless_error e (run_step rs ctx late i step data_in >>= after_step rs ctx i next)

  -- The end of `resumeRunning`, after the last step.
  unfoldable pub complete : Run W D → Context → Option D → M W D (Option Error)
  complete rs ctx out = do
    put_exec (λ exec. record exec { current_step = ""; output = out })
    transition_exec rs ctx Status.completed

  -- The main loop of `resumeRunning`, over the steps from index `i` on.
  unfoldable pub forward_loop :
      List (StepDefinition W D)
      → Run W D
      → Context
      → SagaTimeout
      → ℕ
      → Option D
      → M W D (Option Error)
  unfolding forward_step complete
  forward_loop [] rs ctx late i data_in = complete rs ctx data_in
  forward_loop (step ∷ rest) rs ctx late i data_in =
      poll rs.runtime ctx
      >>= forward_step rs ctx late i step data_in (forward_loop rest rs ctx late (suc i))

  -- The two ways of `resumeRunning`, by the failed step that it finds.
  unfoldable pub resume_running_with :
      Run W D
      → Context
      → SagaTimeout
      → Execution D
      → Option (ℕ × StepExecution D)
      → M W D (Option Error)
  unfolding forward_loop
  resume_running_with rs ctx late exec (some (i, s)) =
      abort rs ctx i (step_error s.name (message s.error))
  resume_running_with rs ctx late exec none =
      let (start_at, data_in) = find_start 0 exec.input exec.steps in
      forward_loop (drop start_at rs.definition.steps) rs ctx late start_at data_in

  -- `resumeRunning`.
  unfoldable pub resume_running : Run W D → Context → SagaTimeout → M W D (Option Error)
  unfolding resume_running_with
  resume_running rs ctx late = do
    exec ← get_exec
    resume_running_with rs ctx late exec (find_failed 0 exec.steps)
