-- ===== src/Tests/Runs.antt =====
-- The theorems on whole runs at concrete inputs, with a store in memory.
use go_orchestrator.Prelude.{
  false, map, length, ℕ, suc, ◌≡◌, refl, Option, none, some, List, [], ◌∷◌, All, arith,
}
use go_orchestrator.Errors.{Error, message, is_non_retryable}
use go_orchestrator.Context.{Context, caller, ended, operation_id}
use go_orchestrator.Interfaces.{noop_store}
use go_orchestrator.Retry.{no_retry}
use go_orchestrator.Definition.{Definition, freeze}
use go_orchestrator.Engine.Monad.{State}
use go_orchestrator.Engine.Resume.{initial, execute, run_state}
use go_orchestrator.Status.{can_transition_status, can_transition_step_status}
use go_orchestrator.Execution.{transition, step_transition}
use go_orchestrator.Engine.Persist.{transition_exec, transition_step, save}
use go_orchestrator.Engine.Notify.{notify_exec, notify_step}
use go_orchestrator.Events.{EventType}
use go_orchestrator.Engine.Attempts.{retry_policy_for, attempt_loop, run_step}
use go_orchestrator.Engine.Compensate.{abort}
use go_orchestrator.Engine.Logic.{Ensures}
use go_orchestrator.Engine.Kept.{identity}
use go_orchestrator.Engine.Landing.Execute.{HasLanded, execute_lands}
use go_orchestrator.Engine.Invariants.Keys.{IsOwn, execute-identity}
use go_orchestrator.Engine.Invariants.Reports.{IsBacked, execute_events}
use go_orchestrator.Engine.Invariants.History.{IsHistory, execute-IsHistory}
use go_orchestrator.Engine.Invariants.Progress.{Concludes, execute-Concludes}
use go_orchestrator.Engine.Fuel.{IsWhole, run_step-rounds}
use go_orchestrator.Engine.Fold.{PureStep, ArePure, evaluate}
use go_orchestrator.Engine.Fold.Execute.{HasYielded, execute_fold}
use go_orchestrator.Tests.{add_action, fail_always, runtime, bad}

execute_lands_example :
    Ensures (HasLanded runtime.format) (execute runtime bad caller (some 5) 0 0).1
execute_lands_example = execute_lands runtime bad caller (some 5) 0 0 (refl, (refl, tt))

execute-identity_example :
    let v = identity (initial runtime (freeze bad) (some 5) 0 0).exec in
    let s = (execute runtime bad caller (some 5) 0 0).1.1 in
    (identity s.exec ≡ v) × All (IsOwn v) s.calls
execute-identity_example = execute-identity runtime bad caller (some 5) 0 0

-- The saga that fails, with a publisher that takes some time.
abbrev announced : Definition ℕ ℕ
announced = record bad { publisher = some (record { publish = λ ctx ev w. (false, suc w) }) }

-- Its events, the newest first, and how many calls were made before each.
announced_events :
    map {B = EventType × ℕ}
      (λ p. (p.0.type, length p.1))
      (execute runtime announced caller (some 5) 0 0).1.1.events
    ≡ (EventType.saga_failed, 13)
      ∷ (EventType.compensation_completed, 12)
      ∷ (EventType.compensation_started, 10)
      ∷ (EventType.step_failed, 8)
      ∷ (EventType.step_started, 6)
      ∷ (EventType.step_completed, 5)
      ∷ (EventType.step_started, 3)
      ∷ (EventType.saga_started, 2)
      ∷ []
unfolding execute transition_exec transition can_transition_status save notify_exec ended
    transition_step step_transition can_transition_step_status notify_step run_step no_retry
    noop_store is_non_retryable abort
announced_events = refl

execute_events_example :
    let s = (execute runtime announced caller (some 5) 0 0).1.1 in All (IsBacked s.calls) s.events
execute_events_example = execute_events runtime announced caller (some 5) 0 0

execute-IsHistory_example :
    let s = (execute runtime bad caller (some 5) 0 0).1.1 in IsHistory s.exec.status s.calls
execute-IsHistory_example = execute-IsHistory runtime bad caller (some 5) 0 0

execute-Concludes_example : Ensures Concludes (execute runtime bad caller (some 5) 0 0).1
unfolding noop_store
execute-Concludes_example =
    execute-Concludes runtime bad caller (some 5) 0 0 (refl, (refl, tt))
      (record { saves = λ ctx x w e. refl; grants = tt })

abbrev begun : State ℕ ℕ
begun = initial runtime bad (some 5) 0 0

run_step-rounds_example :
    (run_step (run_state runtime bad none "") caller none 1 (fail_always "b") (some 5) begun
      ≡ attempt_loop 9
          (run_state runtime bad none "")
          caller
          none
          (operation_id "e1" "b")
          1
          (fail_always "b")
          (some 5)
          1
          begun)
    × IsWhole
        (run_step (run_state runtime bad none "") caller none 1 (fail_always "b") (some 5) begun)
unfolding no_retry retry_policy_for
run_step-rounds_example =
    run_step-rounds (run_state runtime bad none "") caller none (fail_always "b") (some 5) 1 9 begun
      (omega arith)

abbrev plus_one : Option ℕ → Option ℕ × Option Error
plus_one none = (some 1, none)
plus_one (some n) = (some (suc n), none)

abbrev pure_steps : List (PureStep ℕ)
pure_steps =
    record { name = "a"; act = plus_one }
    ∷ record { name = "b"; act = λ x. (none, some (message "no")) }
    ∷ []

add_action-plus_one : (ctx : Context) (x : Option ℕ) (w : ℕ) → (add_action ctx x w).0 ≡ plus_one x
add_action-plus_one ctx none w = refl
add_action-plus_one ctx (some n) w = refl

bad_ArePure : ArePure bad.steps pure_steps
bad_ArePure = (
  record { named = refl; computes = add_action-plus_one; untimed = refl },
  (record { named = refl; computes = λ ctx x w. refl; untimed = refl }, tt),
)

execute_fold_example :
    Ensures (HasYielded (evaluate pure_steps (some 5))) (execute runtime bad caller (some 5) 0 0).1
unfolding ended
execute_fold_example =
    execute_fold runtime bad pure_steps caller (some 5) 0 0 (refl, (refl, tt)) (λ w. refl)
      (λ t. refl) refl bad_ArePure
