-- ===== src/Engine/Landing/Resume.antt =====
-- What a run of resumeRunning of execute.go has saved when it returns, and the branch resume takes.
use go_orchestrator.Prelude.{ℕ, suc, ◌≡◌, refl, false, Option, none, some, List, [], ◌∷◌}
use go_orchestrator.Status.{Status, StepStatus, is_terminal}
use go_orchestrator.Errors.{Error, message, step_error}
use go_orchestrator.Context.{Context}
use go_orchestrator.Execution.{StepExecution}
use go_orchestrator.Definition.{StepDefinition}
use go_orchestrator.Engine.Monad.{M, Run, State, ◌>>=◌, ◌>>◌, poll}
use go_orchestrator.Engine.Persist.{transition_exec, transition_step}
use go_orchestrator.Engine.Attempts.{SagaTimeout, run_step}
use go_orchestrator.Engine.Compensate.{abort, resume_compensating}
use go_orchestrator.Engine.Running.{
  find_failed, set_current, after_step, begin_step, forward_step, complete, forward_loop,
  resume_running_with, resume_running,
}
use go_orchestrator.Engine.Resume.{dispatch}
use go_orchestrator.Engine.Rollback.Picks.{get_step-any}
use go_orchestrator.Engine.Landing.{
  Breaks, Lands, GivesUp, Accounts, GivesUp-Accounts, weaken-Lands, entered, Writes-Breaks,
  Writes-Lands, after-Lands, try-Lands, transition_exec-Writes, transition_step-Breaks,
}
use go_orchestrator.Engine.Landing.Undo.{abort-Lands, resume_compensating-Lands}

module _ {W D : Type 0} (rs : Run W D) where
  aborted :
      (ctx : Context) (i : ℕ) (original : Error) (s : State W D)
      → Lands (Accounts rs.runtime.format) (abort rs ctx i original s)
  aborted ctx i original s =
      weaken-Lands (GivesUp rs.runtime.format original) (Accounts rs.runtime.format)
        (abort rs ctx i original s) (GivesUp-Accounts rs.runtime.format original)
        (abort-Lands rs ctx i original s)

  after_step-Lands :
      (ctx : Context) (i : ℕ) (next : Option D → M W D (Option Error)) (r : Option D × Option Error)
      (s : State W D)
      → ((x : Option D) (t : State W D) → Lands (Accounts rs.runtime.format) (next x t))
      → Lands (Accounts rs.runtime.format) (after_step rs ctx i next r s)
  unfolding after_step
  after_step-Lands ctx i next (out, some e) s h =
      get_step-any (Lands (Accounts rs.runtime.format)) i _ s tt (λ x found.
        try-Lands (Accounts rs.runtime.format) (transition_step rs ctx i StepStatus.failed _)
          (set_current "" >> abort rs ctx i e) (transition_step-Breaks rs ctx i StepStatus.failed _)
          (λ t. aborted ctx i e _))
  after_step-Lands ctx i next (out, none) s h =
      get_step-any (Lands (Accounts rs.runtime.format)) i _ s tt (λ x found.
        try-Lands (Accounts rs.runtime.format) (transition_step rs ctx i StepStatus.succeeded _)
          (next out) (transition_step-Breaks rs ctx i StepStatus.succeeded _) (h out))

  pub begin_step-Breaks :
      (ctx : Context) (i : ℕ) (st : StepStatus) (s : State W D) → Breaks (begin_step rs ctx i st s)
  unfolding begin_step
  begin_step-Breaks ctx i StepStatus.pending s =
      transition_step-Breaks rs ctx i StepStatus.running s
  begin_step-Breaks ctx i StepStatus.running s = tt
  begin_step-Breaks ctx i StepStatus.succeeded s = tt
  begin_step-Breaks ctx i StepStatus.failed s = tt
  begin_step-Breaks ctx i StepStatus.compensating s = tt
  begin_step-Breaks ctx i StepStatus.compensated s = tt
  begin_step-Breaks ctx i StepStatus.compensation_failed s = tt

  forward_step-Lands :
      (ctx : Context) (late : SagaTimeout) (i : ℕ) (step : StepDefinition W D) (x : Option D)
      (next : Option D → M W D (Option Error)) (why : Option Error) (s : State W D)
      → ((x : Option D) (t : State W D) → Lands (Accounts rs.runtime.format) (next x t))
      → Lands (Accounts rs.runtime.format) (forward_step rs ctx late i step x next why s)
  unfolding forward_step
  forward_step-Lands ctx late i step x next (some why) s h = aborted ctx i why _
  forward_step-Lands ctx late i step x next none s h =
      get_step-any (Lands (Accounts rs.runtime.format)) i _
        (record s { exec = record s.exec { current_step = step.name } }) tt
        (λ y found.
          try-Lands (Accounts rs.runtime.format) (begin_step rs ctx i y.status _)
            (run_step rs ctx late i step x >>= after_step rs ctx i next)
            (begin_step-Breaks ctx i y.status _)
            (λ t.
              after-Lands (Accounts rs.runtime.format) (run_step rs ctx late i step x t)
                (after_step rs ctx i next) (λ r u. after_step-Lands ctx i next r u h)))

  forward_loop-Lands :
      (steps : List (StepDefinition W D)) (ctx : Context) (late : SagaTimeout) (i : ℕ)
      (x : Option D) (s : State W D)
      → Lands (Accounts rs.runtime.format) (forward_loop steps rs ctx late i x s)
  unfolding forward_loop complete
  forward_loop-Lands [] ctx late i x s =
      let t : State W D = record s { exec = record s.exec { current_step = ""; output = x } } in
      Writes-Lands (Accounts rs.runtime.format) (entered rs Status.completed t)
        (transition_exec rs ctx Status.completed t)
        (transition_exec-Writes rs ctx Status.completed t) refl
  forward_loop-Lands (step ∷ rest) ctx late i x s =
      after-Lands (Accounts rs.runtime.format) (poll rs.runtime ctx s)
        (forward_step rs ctx late i step x (forward_loop rest rs ctx late (suc i)))
        (λ why t.
          forward_step-Lands ctx late i step x (forward_loop rest rs ctx late (suc i)) why t
            (λ y u. forward_loop-Lands rest ctx late (suc i) y u))

  resume_running-Lands :
      (ctx : Context) (late : SagaTimeout) (s : State W D)
      → Lands (Accounts rs.runtime.format) (resume_running rs ctx late s)
  unfolding resume_running resume_running_with
  resume_running-Lands ctx late s = by (find_failed 0 s.exec.steps)
    where
      by :
          (o : Option (ℕ × StepExecution D))
          → Lands (Accounts rs.runtime.format) (resume_running_with rs ctx late s.exec o s)
      by (some (i, x)) = aborted ctx i (step_error x.name (message x.error)) s
      by none = forward_loop-Lands _ ctx late _ _ s

  pub dispatch-Lands :
      (ctx : Context) (late : SagaTimeout) (st : Status) (s : State W D)
      → is_terminal st ≡ false
      → Lands (Accounts rs.runtime.format) (dispatch rs ctx late st s)
  unfolding dispatch
  dispatch-Lands ctx late Status.pending s live =
      try-Lands (Accounts rs.runtime.format) (transition_exec rs ctx Status.running s)
        (resume_running rs ctx late)
        (Writes-Breaks (entered rs Status.running s) (transition_exec rs ctx Status.running s)
          (transition_exec-Writes rs ctx Status.running s))
        (resume_running-Lands ctx late)
  dispatch-Lands ctx late Status.running s live = resume_running-Lands ctx late s
  dispatch-Lands ctx late Status.compensating s live =
      weaken-Lands (GivesUp rs.runtime.format (message s.exec.error)) (Accounts rs.runtime.format)
        (resume_compensating rs ctx s) (GivesUp-Accounts rs.runtime.format (message s.exec.error))
        (resume_compensating-Lands rs ctx s)
  dispatch-Lands ctx late Status.completed s live = cc
  dispatch-Lands ctx late Status.failed s live = cc
  dispatch-Lands ctx late Status.compensated s live = cc
  dispatch-Lands ctx late Status.compensation_failed s live = cc
