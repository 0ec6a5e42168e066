-- ===== src/Tests/Examples.antt =====
-- The theorems at concrete inputs.
use go_orchestrator.Prelude.{
  ℕ, suc, ◌+◌, ◌-◌, ℕ, ◌≤◌, ◌≡◌, refl, ◌⊎◌, none, some, List, [], ◌∷◌, arith,
}
use go_orchestrator.Prelude.Int.{pos_part}
use go_orchestrator.Status.{Status, StepStatus, can_transition_status, can_transition_step_status}
use go_orchestrator.Context.{caller, ended}
use go_orchestrator.Execution.{Execution, StepExecution, transition, step_transition}
use go_orchestrator.Retry.{no_retry}
use go_orchestrator.Engine.Monad.{State, leased}
use go_orchestrator.Engine.Resume.{resume, execute, fresh, fresh_step, run_state}
use go_orchestrator.Engine.Logic.{Ensures}
use go_orchestrator.Engine.Safety.Execute.{EndsWell, execute_ends, resume_ends, resume_terminal}
use go_orchestrator.Engine.Persist.{transition_exec, transition_step, save}
use go_orchestrator.Engine.Notify.{notify_exec, notify_step}
use go_orchestrator.Engine.Attempts.{run_step, retry_policy_for}
use go_orchestrator.Engine.Compensate.{compensate}
use go_orchestrator.Engine.Spending.{acts, run_step-acts}
use go_orchestrator.Engine.Rollback.Picks.{Calls, compensate-Calls}
use go_orchestrator.Engine.Rollback.Verdict.{Tells, compensate_lem}
use go_orchestrator.Interfaces.{noop_store}
use go_orchestrator.Recovery.{resume_one}
use go_orchestrator.Recovery.Crash.{crash_recovery}
use go_orchestrator.Tests.{fail_always, runtime, add_one, good, bad}

execute_ends_example : Ensures (EndsWell 2) (execute runtime bad caller (some 5) 0 0).1
execute_ends_example = execute_ends runtime bad caller (some 5) 0 0 (refl, (refl, tt))

abbrev pub half_steps : List (StepExecution ℕ)
half_steps =
    record {
      name = "a";
      status = StepStatus.running;
      attempts = 0;
      output = none;
      error = "";
      started_at = some 5;
      completed_at = none;
      compensation_started_at = none;
      compensated_at = none;
    }
    ∷ fresh_step (add_one "b")
    ∷ []

-- The first step has begun.
abbrev pub half : Execution ℕ
half = record (fresh good "e1" (some 5) 1) {
  status = Status.running;
  updated_at = 2;
  steps = half_steps;
  current_step = "a";
  started_at = some 2;
}

abbrev state_of : Execution ℕ → State ℕ ℕ
state_of x = record { world = 0; exec = x; next_pointer = 0; calls = []; events = [] }

resume_ends_example : Ensures (EndsWell 2) (resume runtime bad caller (state_of half))
resume_ends_example =
    resume_ends runtime bad caller (state_of half) (refl, (refl, tt))
      (record { sized = refl; fits = (refl, tt) }) refl tt

abbrev pub done : Execution ℕ
done = record half { status = Status.failed; completed_at = some 3 }

resume_terminal_example :
    Ensures
      (λ e t. (t.exec ≡ done) × ((t.calls ≡ []) × (e ≡ none) ⊎ (t.calls ≡ leased "e1" e ∷ [])))
      (resume runtime good caller (state_of done))
resume_terminal_example = resume_terminal runtime good caller (state_of done) refl

crash_recovery_example : Ensures (EndsWell 2) (resume_one runtime bad caller half 7 9)
unfolding execute transition_exec transition can_transition_status save notify_exec ended
    transition_step step_transition can_transition_step_status notify_step run_step noop_store
    no_retry
crash_recovery_example =
    crash_recovery runtime good caller (some 5) 0 0 runtime bad caller 7 9 6 half none
      (refl, (refl, tt)) (refl, (refl, tt)) refl refl refl

-- A step of `half` that has failed too, after one that succeeded.
abbrev broken : Execution ℕ
broken = record half {
  status = Status.compensating;
  steps =
      record (fresh_step (add_one "a")) { status = StepStatus.succeeded; output = some 6 }
      ∷ record (fresh_step (add_one "b")) { status = StepStatus.failed }
      ∷ [];
}

compensate_lem_example :
    Ensures
      (Tells (run_state runtime bad none "") 1 (state_of broken))
      (compensate (run_state runtime bad none "") caller 1 (state_of broken))
compensate_lem_example =
    compensate_lem (run_state runtime bad none "") caller 1 (state_of broken) (omega arith)
      (omega arith)

compensate-Calls_example :
    Calls 1
      ([], "a" ∷ "b" ∷ [])
      (compensate (run_state runtime bad none "") caller 1 (state_of broken))
compensate-Calls_example =
    compensate-Calls (run_state runtime bad none "") caller 1 (state_of broken)

run_step-acts_example :
    acts
      (run_step
        (run_state runtime bad none "")
        caller
        none
        1
        (fail_always "b")
        (some 6)
        (state_of half)).1.calls
    ≤ 0
      + suc (
          pos_part (retry_policy_for (run_state runtime bad none "") (fail_always "b")).max_attempts
          - 1)
run_step-acts_example =
    run_step-acts (run_state runtime bad none "") caller none (fail_always "b") (some 6) 1
      (state_of half)
