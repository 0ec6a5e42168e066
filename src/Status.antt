-- ===== src/Status.antt =====
-- status.go, step_status.go and transitions.go: the statuses of an execution and of a step, and the
-- tables of the transitions between them. A status is one of the declared constants; a text that is
-- none of them is outside the model.
pub mod Laws
pub mod Texts
use go_orchestrator.Prelude.{ℕ, Bool, true, false, String, List, [], ◌∷◌, ◌==◌, any, str_eq}

pub data Status : Type 0 where
  pending running completed compensating compensated failed compensation_failed : Status

pub data StepStatus : Type 0 where
  pending running succeeded failed compensating compensated compensation_failed : StepStatus

-- The constants' texts, by which a status is stored and logged.
abbrev pub status_text : Status → String
status_text Status.pending = "PENDING"
status_text Status.running = "RUNNING"
status_text Status.completed = "COMPLETED"
status_text Status.compensating = "COMPENSATING"
status_text Status.compensated = "COMPENSATED"
status_text Status.failed = "FAILED"
status_text Status.compensation_failed = "COMPENSATION_FAILED"

abbrev pub step_status_text : StepStatus → String
step_status_text StepStatus.pending = "PENDING"
step_status_text StepStatus.running = "RUNNING"
step_status_text StepStatus.succeeded = "SUCCEEDED"
step_status_text StepStatus.failed = "FAILED"
step_status_text StepStatus.compensating = "COMPENSATING"
step_status_text StepStatus.compensated = "COMPENSATED"
step_status_text StepStatus.compensation_failed = "COMPENSATION_FAILED"

-- `validStatuses` and `Status.Valid`, for a text that need not be a status.
abbrev pub valid_statuses : List String
valid_statuses =
    "PENDING" ∷ "RUNNING" ∷ "COMPLETED" ∷ "COMPENSATING" ∷ "COMPENSATED" ∷ "FAILED"
    ∷ "COMPENSATION_FAILED" ∷ []

unfoldable pub valid : String → Bool
valid s = any (str_eq s) valid_statuses

-- `validStepStatuses` and `StepStatus.Valid`.
abbrev pub valid_step_statuses : List String
valid_step_statuses =
    "PENDING" ∷ "RUNNING" ∷ "SUCCEEDED" ∷ "FAILED" ∷ "COMPENSATING" ∷ "COMPENSATED"
    ∷ "COMPENSATION_FAILED" ∷ []

unfoldable pub valid_step : String → Bool
valid_step s = any (str_eq s) valid_step_statuses

-- `terminalStatuses` and `IsTerminal`: a status with no entry in the map is not terminal.
abbrev pub is_terminal : Status → Bool
is_terminal Status.completed = true
is_terminal Status.compensated = true
is_terminal Status.failed = true
is_terminal Status.compensation_failed = true
is_terminal _ = false

abbrev pub step_is_terminal : StepStatus → Bool
step_is_terminal StepStatus.failed = true
step_is_terminal StepStatus.compensated = true
step_is_terminal StepStatus.compensation_failed = true
step_is_terminal _ = false

-- Go's `==` on statuses, through the position of the constant in its block.
abbrev status_index : Status → ℕ
status_index Status.pending = 0
status_index Status.running = 1
status_index Status.completed = 2
status_index Status.compensating = 3
status_index Status.compensated = 4
status_index Status.failed = 5
status_index Status.compensation_failed = 6

abbrev step_status_index : StepStatus → ℕ
step_status_index StepStatus.pending = 0
step_status_index StepStatus.running = 1
step_status_index StepStatus.succeeded = 2
step_status_index StepStatus.failed = 3
step_status_index StepStatus.compensating = 4
step_status_index StepStatus.compensated = 5
step_status_index StepStatus.compensation_failed = 6

abbrev pub status_eq : Status → Status → Bool
status_eq a b = status_index a == status_index b

abbrev pub step_status_eq : StepStatus → StepStatus → Bool
step_status_eq a b = step_status_index a == step_status_index b

-- The tables. A missing key gives the nil slice.
abbrev pub status_transitions : Status → List Status
status_transitions Status.pending = Status.running ∷ []
status_transitions Status.running = Status.completed ∷ Status.compensating ∷ Status.failed ∷ []
status_transitions Status.compensating = Status.compensated ∷ Status.compensation_failed ∷ []
status_transitions _ = []

abbrev pub step_status_transitions : StepStatus → List StepStatus
step_status_transitions StepStatus.pending = StepStatus.running ∷ []
step_status_transitions StepStatus.running = StepStatus.succeeded ∷ StepStatus.failed ∷ []
step_status_transitions StepStatus.succeeded = StepStatus.compensating ∷ []
step_status_transitions StepStatus.compensating =
    StepStatus.compensated ∷ StepStatus.compensation_failed ∷ []
step_status_transitions _ = []

unfoldable pub can_transition_status : Status → Status → Bool
can_transition_status from to = any (λ allowed. status_eq allowed to) (status_transitions from)

unfoldable pub can_transition_step_status : StepStatus → StepStatus → Bool
can_transition_step_status from to =
    any (λ allowed. step_status_eq allowed to) (step_status_transitions from)
