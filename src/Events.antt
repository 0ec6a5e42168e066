-- ===== src/Events.antt =====
-- events.go: the lifecycle events, and which transition gives which event.
pub mod Laws
use go_orchestrator.Prelude.{ℕ, String, Bool, true, false, Option, none, some}
use go_orchestrator.Status.{Status, StepStatus}

pub data EventType : Type 0 where
  saga_started saga_completed saga_failed : EventType
  step_started step_completed step_failed : EventType
  compensation_started compensation_completed compensation_failed : EventType

abbrev pub event_type_text : EventType → String
event_type_text EventType.saga_started = "SAGA_STARTED"
event_type_text EventType.saga_completed = "SAGA_COMPLETED"
event_type_text EventType.saga_failed = "SAGA_FAILED"
event_type_text EventType.step_started = "STEP_STARTED"
event_type_text EventType.step_completed = "STEP_COMPLETED"
event_type_text EventType.step_failed = "STEP_FAILED"
event_type_text EventType.compensation_started = "COMPENSATION_STARTED"
event_type_text EventType.compensation_completed = "COMPENSATION_COMPLETED"
event_type_text EventType.compensation_failed = "COMPENSATION_FAILED"

pub record Event : Type 0 where
  pub type : EventType
  pub execution_id : String
  pub saga_name : String
  pub step : String
  pub error : String
  pub at : ℕ

-- `sagaEventType` and `stepEventType`; `none` is the second result false.
abbrev pub saga_event_type : Status → Option EventType
saga_event_type Status.running = some EventType.saga_started
saga_event_type Status.completed = some EventType.saga_completed
saga_event_type Status.failed = some EventType.saga_failed
saga_event_type Status.compensated = some EventType.saga_failed
saga_event_type Status.compensation_failed = some EventType.saga_failed
saga_event_type _ = none

abbrev pub step_event_type : StepStatus → Option EventType
step_event_type StepStatus.running = some EventType.step_started
step_event_type StepStatus.succeeded = some EventType.step_completed
step_event_type StepStatus.failed = some EventType.step_failed
step_event_type StepStatus.compensating = some EventType.compensation_started
step_event_type StepStatus.compensated = some EventType.compensation_completed
step_event_type StepStatus.compensation_failed = some EventType.compensation_failed
step_event_type StepStatus.pending = none

-- The three types that `logEvent` logs as errors.
abbrev pub is_failure : EventType → Bool
is_failure EventType.saga_failed = true
is_failure EventType.step_failed = true
is_failure EventType.compensation_failed = true
is_failure _ = false
