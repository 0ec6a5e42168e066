-- ===== src/Engine/Kept/Forward.antt =====
-- What resumeRunning of execute.go keeps.
use go_orchestrator.Prelude.{ℕ, zero, suc, refl, Option, none, some, List, [], ◌∷◌, All, drop}
use go_orchestrator.Status.{Status, StepStatus}
use go_orchestrator.Errors.{Error, message, step_error, error_text}
use go_orchestrator.Context.{Context}
use go_orchestrator.Execution.{Execution, StepExecution}
use go_orchestrator.Definition.{StepDefinition}
use go_orchestrator.Engine.Monad.{M, Run, State, ◌>>=◌, ◌>>◌, poll, put_exec}
use go_orchestrator.Engine.Persist.{transition_step}
use go_orchestrator.Engine.Attempts.{SagaTimeout, run_step}
use go_orchestrator.Engine.Compensate.{abort}
use go_orchestrator.Engine.Running.{
  find_failed, find_start, set_current, after_step, begin_step, forward_step, complete,
  forward_loop, resume_running_with, resume_running,
}
use go_orchestrator.Engine.Kept.{
  Identity, IsStepApart, IsKept, Keeps, pure-Keeps, bind-Keeps, try-Keeps,
}
use go_orchestrator.Engine.Kept.Notify.{poll-Keeps}
use go_orchestrator.Engine.Kept.Persist.{put_exec-Keeps, get_step-Keeps}
use go_orchestrator.Engine.Kept.Transitions.{transition_exec-Keeps, transition_step-Keeps}
use go_orchestrator.Engine.Kept.Attempts.{run_step-Keeps}
use go_orchestrator.Engine.Kept.Undo.{get_exec-Keeps, edit_step-Keeps, current-Keeps}
use go_orchestrator.Engine.Kept.Abort.{abort-Keeps}

module _ {W D : Type 0} (Same : W → W → Type 0) where
  drop-IsStepApart :
      (i : ℕ) (l : List (StepDefinition W D))
      → All (IsStepApart Same) l
      → All (IsStepApart Same) (drop i l)
  drop-IsStepApart zero l h = h
  drop-IsStepApart (suc i) [] h = tt
  drop-IsStepApart (suc i) (x ∷ l) h = drop-IsStepApart i l h.1

module _ {W D : Type 0} {rs : Run W D} {v : Identity D} {Same : W → W → Type 0}
    {Holds : State W D → Type 0} (k : IsKept rs v Same Holds) where
  after_step-Keeps :
      (ctx : Context) (i : ℕ) (next : Option D → M W D (Option Error)) (r : Option D × Option Error)
      → ((x : Option D) → Keeps v Holds (next x))
      → Keeps v Holds (after_step rs ctx i next r)
  unfolding after_step
  after_step-Keeps ctx i next (out, some e) h =
      edit_step-Keeps k i (λ x. record x { error = error_text rs.runtime.format e }) _ (λ _. refl)
        (λ _.
          try-Keeps v Holds (transition_step rs ctx i StepStatus.failed)
            (set_current "" >> abort rs ctx i e) (transition_step-Keeps k ctx i StepStatus.failed)
            (bind-Keeps v Holds (set_current "") (λ _. abort rs ctx i e) (current-Keeps k "")
              (λ _. abort-Keeps k ctx i e)))
  after_step-Keeps ctx i next (out, none) h =
      edit_step-Keeps k i (λ x. record x { output = out }) _ (λ _. refl)
        (λ _.
          try-Keeps v Holds (transition_step rs ctx i StepStatus.succeeded) (next out)
            (transition_step-Keeps k ctx i StepStatus.succeeded) (h out))

  begin_step-Keeps :
      (ctx : Context) (i : ℕ) (st : StepStatus) → Keeps v Holds (begin_step rs ctx i st)
  unfolding begin_step
  begin_step-Keeps ctx i StepStatus.pending = transition_step-Keeps k ctx i StepStatus.running
  begin_step-Keeps ctx i StepStatus.running = pure-Keeps v Holds none
  begin_step-Keeps ctx i StepStatus.succeeded = pure-Keeps v Holds none
  begin_step-Keeps ctx i StepStatus.failed = pure-Keeps v Holds none
  begin_step-Keeps ctx i StepStatus.compensating = pure-Keeps v Holds none
  begin_step-Keeps ctx i StepStatus.compensated = pure-Keeps v Holds none
  begin_step-Keeps ctx i StepStatus.compensation_failed = pure-Keeps v Holds none

  forward_step-Keeps :
      (ctx : Context) (late : SagaTimeout) (i : ℕ) (step : StepDefinition W D) (x : Option D)
      (next : Option D → M W D (Option Error)) (why : Option Error)
      → IsStepApart Same step
      → ((x : Option D) → Keeps v Holds (next x))
      → Keeps v Holds (forward_step rs ctx late i step x next why)
  unfolding forward_step
  forward_step-Keeps ctx late i step x next (some why) apart h =
      bind-Keeps v Holds (set_current "") (λ _. abort rs ctx i why) (current-Keeps k "")
        (λ _. abort-Keeps k ctx i why)
  forward_step-Keeps ctx late i step x next none apart h =
      bind-Keeps v Holds (set_current step.name) _ (current-Keeps k step.name) λ _.
        get_step-Keeps k i _ λ s.
          try-Keeps v Holds (begin_step rs ctx i s.status)
            (run_step rs ctx late i step x >>= after_step rs ctx i next)
            (begin_step-Keeps ctx i s.status)
            (bind-Keeps v Holds (run_step rs ctx late i step x) (after_step rs ctx i next)
              (run_step-Keeps k step apart ctx late i x) (λ r. after_step-Keeps ctx i next r h))

  complete-Keeps : (ctx : Context) (out : Option D) → Keeps v Holds (complete rs ctx out)
  unfolding complete
  complete-Keeps ctx out =
      bind-Keeps v Holds (put_exec (λ exec. record exec { current_step = ""; output = out })) _
        (put_exec-Keeps k (λ exec. record exec { current_step = ""; output = out })
          (λ _. (refl, refl)))
        (λ _. transition_exec-Keeps k ctx Status.completed)

  forward_loop-Keeps :
      (steps : List (StepDefinition W D)) (ctx : Context) (late : SagaTimeout) (i : ℕ)
      (x : Option D)
      → All (IsStepApart Same) steps
      → Keeps v Holds (forward_loop steps rs ctx late i x)
  unfolding forward_loop
  forward_loop-Keeps [] ctx late i x h = complete-Keeps ctx x
  forward_loop-Keeps (step ∷ rest) ctx late i x h =
      bind-Keeps v Holds (poll rs.runtime ctx) _ (poll-Keeps k.world ctx) (λ why.
        forward_step-Keeps ctx late i step x (forward_loop rest rs ctx late (suc i)) why h.0
          (λ y. forward_loop-Keeps rest ctx late (suc i) y h.1))

  resume_running_with-Keeps :
      (ctx : Context) (late : SagaTimeout) (exec : Execution D) (o : Option (ℕ × StepExecution D))
      → Keeps v Holds (resume_running_with rs ctx late exec o)
  unfolding resume_running_with
  resume_running_with-Keeps ctx late exec (some (i, s)) =
      abort-Keeps k ctx i (step_error s.name (message s.error))
  resume_running_with-Keeps ctx late exec none =
      let (i, x) = find_start 0 exec.input exec.steps in
      forward_loop-Keeps (drop i rs.definition.steps) ctx late i x
        (drop-IsStepApart Same i rs.definition.steps k.world.apart.steps)

  pub resume_running-Keeps :
      (ctx : Context) (late : SagaTimeout) → Keeps v Holds (resume_running rs ctx late)
  unfolding resume_running
  resume_running-Keeps ctx late =
      get_exec-Keeps k _ (λ x. resume_running_with-Keeps ctx late x (find_failed 0 x.steps))
