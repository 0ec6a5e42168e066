-- ===== src/Execution.antt =====
-- execution.go and step_execution.go: the record of a run and of its steps, and the transitions of
-- their statuses. `any` is `Option D` for a type of data `D`, with `none` for nil. A time is a number
-- of nanoseconds, and a `*time.Time` an `Option`; a `Clone` is the value itself, since a model's
-- values are not shared.
pub mod Timestamps
use go_orchestrator.Prelude.{
  ℕ, String, Bool, true, false, Option, none, some, List, map, if◌then◌else◌,
}
use go_orchestrator.Errors.{Error, invalid_transition, invalid_step_transition}
use go_orchestrator.Status.{
  Status, StepStatus, is_terminal, status_eq, can_transition_status, can_transition_step_status,
}

pub record StepExecution (D : Type 0) : Type 0 where
  pub name : String
  pub status : StepStatus
  pub attempts : ℕ  -- int, as its bit pattern
  pub output : Option D
  pub error : String
  pub started_at : Option ℕ
  pub completed_at : Option ℕ
  pub compensation_started_at : Option ℕ
  pub compensated_at : Option ℕ

pub record Execution (D : Type 0) : Type 0 where
  pub id : String
  pub saga_name : String
  pub status : Status
  pub input : Option D
  pub output : Option D
  pub steps : List (StepExecution D)
  pub current_step : String
  pub error : String
  pub created_at : ℕ
  pub updated_at : ℕ
  pub started_at : Option ℕ
  pub completed_at : Option ℕ

-- `clonedTime`: a new pointer to an equal time.
abbrev pub cloned_time : Option ℕ → Option ℕ
cloned_time none = none
cloned_time (some t) = some t

module _ {D : Type 0} where
  abbrev pub clone_step : StepExecution D → StepExecution D
  clone_step s = record s {
    started_at = cloned_time s.started_at;
    completed_at = cloned_time s.completed_at;
    compensation_started_at = cloned_time s.compensation_started_at;
    compensated_at = cloned_time s.compensated_at;
  }

  -- `Execution.Clone`.
  unfoldable pub clone : Execution D → Execution D
  clone e = record e {
    steps = map clone_step e.steps;
    started_at = cloned_time e.started_at;
    completed_at = cloned_time e.completed_at;
  }

  -- The assignments of `Execution.transition`, once the transition is known to be allowed.
  abbrev pub enter : Status → ℕ → Execution D → Execution D
  enter to now e = record e {
    status = to;
    updated_at = now;
    started_at = if status_eq to Status.running then some now else e.started_at;
    completed_at = if is_terminal to then some now else e.completed_at;
  }

  -- `Execution.transition`: the execution afterwards, and the error if it was refused.
  unfoldable pub transition : Execution D → Status → ℕ → Execution D × Option Error
  transition e to now =
      if can_transition_status e.status to
      then (enter to now e, none)
      else (e, some (invalid_transition e.status to))

  -- The `switch` of `StepExecution.transition`.
  abbrev pub enter_step : StepStatus → ℕ → StepExecution D → StepExecution D
  enter_step StepStatus.running now s = record s {
    status = StepStatus.running;
    started_at = some now;
  }
  enter_step StepStatus.succeeded now s = record s {
    status = StepStatus.succeeded;
    completed_at = some now;
  }
  enter_step StepStatus.failed now s = record s {
    status = StepStatus.failed;
    completed_at = some now;
  }
  enter_step StepStatus.compensating now s = record s {
    status = StepStatus.compensating;
    compensation_started_at = some now;
  }
  enter_step StepStatus.compensated now s = record s {
    status = StepStatus.compensated;
    compensated_at = some now;
  }
  enter_step StepStatus.compensation_failed now s = record s {
    status = StepStatus.compensation_failed;
    compensated_at = some now;
  }
  enter_step StepStatus.pending now s = record s { status = StepStatus.pending }

  -- `StepExecution.transition`.
  unfoldable pub step_transition : StepExecution D → StepStatus → ℕ → StepExecution D × Option Error
  step_transition s to now =
      if can_transition_step_status s.status to
      then (enter_step to now s, none)
      else (s, some (invalid_step_transition s.name s.status to))
