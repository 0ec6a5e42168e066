-- ===== src/Tests.antt =====
-- The theorems at concrete inputs, and runs of a small saga.
pub mod Examples
pub mod Runs
pub mod World
pub mod Parts
use go_orchestrator.Prelude.{
  ℕ, suc, ◌+◌, String, ◌≡◌, ◌≢◌, refl, Bool, true, false, Option, none, some, List, [], ◌∷◌, length,
  get_elem?,
}
use go_orchestrator.Prelude.Int.{ℤ, pos, pos_part, ◌≤ℤ◌, ◌<ℤ◌}
use go_orchestrator.Status.{Status, StepStatus, can_transition_status, can_transition_step_status}
use go_orchestrator.Errors.{
  Error, Format, Target, message, step_error, non_retryable, wrap, error_is, is_non_retryable,
}
use go_orchestrator.Context.{Context, caller, ended}
use go_orchestrator.Execution.{Execution, transition, step_transition}
use go_orchestrator.Interfaces.{Runtime, noop_store, default_lock_ttl}
use go_orchestrator.Retry.{no_retry}
use go_orchestrator.Definition.{
  ActionFunc, StepDefinition, Definition, built, step, new, add_step, add_steps, and_then,
}
use go_orchestrator.Engine.Monad.{Outcome, ok, panic, State, Call, saved, acted, undone}
use go_orchestrator.Engine.Resume.{execute}
use go_orchestrator.Engine.Persist.{transition_exec, transition_step, save}
use go_orchestrator.Engine.Notify.{notify_exec, notify_step}
use go_orchestrator.Engine.Attempts.{run_step}
use go_orchestrator.Engine.Compensate.{abort}
use go_orchestrator.Engine.Shapes.{shape}

-- The world is a clock, which moves on at each look.
abbrev pub runtime : Runtime ℕ
runtime = record {
  now = λ w. w;
  tick = λ w. suc w;
  caller_ended = λ w. none;
  sleep = λ ctx d w. (true, w + pos_part d);
  new_id = λ w. ("e1", w);
  format = record { quote = λ s. s; duration = λ d. "" };
}

-- A step that adds one to what it is given, and can be undone.
abbrev pub add_action : ActionFunc ℕ ℕ
add_action ctx none w = ((some 1, none), w)
add_action ctx (some n) w = ((some (suc n), none), w)

abbrev pub add_one : String → StepDefinition ℕ ℕ
add_one name = step name (some add_action) (some (λ ctx x w. (none, w))) []

-- A step that fails.
abbrev pub fail_always : String → StepDefinition ℕ ℕ
fail_always name = step name (some (λ ctx x w. ((none, some (message "no")), w))) none []

-- A saga with these steps and the settings of `new`.
abbrev pub saga : List (StepDefinition ℕ ℕ) → List String → Definition ℕ ℕ
saga steps names = record {
  name = "s";
  steps = steps;
  step_set = names;
  frozen = false;
  store = noop_store;
  retry_policy = no_retry;
  timeout = pos 0;
  lock_ttl = default_lock_ttl;
  publisher = none;
  logger = none;
  metrics = none;
  tracer = none;
}

abbrev pub good : Definition ℕ ℕ
good = saga (add_one "a" ∷ add_one "b" ∷ []) ("b" ∷ "a" ∷ [])

abbrev pub bad : Definition ℕ ℕ
bad = saga (add_one "a" ∷ fail_always "b" ∷ []) ("b" ∷ "a" ∷ [])

good_built : and_then (new "s" []) (add_steps (add_one "a" ∷ add_one "b" ∷ [])) ≡ built good
unfolding new add_step noop_store no_retry
good_built = refl

abbrev pub after_good : Outcome (Option Error) × State ℕ ℕ
after_good = (execute runtime good caller (some 5) 0 0).1

abbrev pub after_bad : Outcome (Option Error) × State ℕ ℕ
after_bad = (execute runtime bad caller (some 5) 0 0).1

-- The data goes from step to step, and the last output is the saga's.
good_output :
    (after_good.0 ≡ ok none)
    × (after_good.1.exec.status ≡ Status.completed)
    × (after_good.1.exec.output ≡ some 7)
unfolding execute transition_exec transition can_transition_status save notify_exec ended
    transition_step step_transition can_transition_step_status notify_step run_step noop_store
    no_retry
good_output = (refl, refl, refl)

-- After the failure of the second step the first is compensated.
bad_statuses :
    (after_bad.1.exec.status ≡ Status.compensated)
    × (shape after_bad.1.exec
        ≡ (Status.compensated, StepStatus.compensated ∷ StepStatus.failed ∷ []))
unfolding execute transition_exec transition can_transition_status save notify_exec ended
    transition_step step_transition can_transition_step_status notify_step run_step is_non_retryable
    abort noop_store no_retry
bad_statuses = (refl, refl)
