-- ===== src/Execution/Timestamps.antt =====
-- The timestamps of execution.go and step_execution.go never disagree with the statuses.
use go_orchestrator.Prelude.{ℕ, ◌≡◌, Bool, true, false, is_some, arith}
use go_orchestrator.Status.{
  Status, StepStatus, is_terminal, can_transition_status, can_transition_step_status,
}
use go_orchestrator.Execution.{StepExecution, Execution, transition, step_transition}

-- Whether an execution, or the part of a step's life, has begun or ended by its status.
abbrev has_started : Status → Bool
has_started Status.pending = false
has_started _ = true

abbrev step_started : StepStatus → Bool
step_started StepStatus.pending = false
step_started _ = true

abbrev step_completed : StepStatus → Bool
step_completed StepStatus.pending = false
step_completed StepStatus.running = false
step_completed _ = true

abbrev compensation_started : StepStatus → Bool
compensation_started StepStatus.compensating = true
compensation_started StepStatus.compensated = true
compensation_started StepStatus.compensation_failed = true
compensation_started _ = false

abbrev compensation_ended : StepStatus → Bool
compensation_ended StepStatus.compensated = true
compensation_ended StepStatus.compensation_failed = true
compensation_ended _ = false

module _ {D : Type 0} where
  -- Each timestamp is set exactly when the status says so.
  pub record IsStamped (e : Execution D) : Type 0 where
    pub started : is_some e.started_at ≡ has_started e.status
    pub completed : is_some e.completed_at ≡ is_terminal e.status

  pub record IsStepStamped (s : StepExecution D) : Type 0 where
    pub started : is_some s.started_at ≡ step_started s.status
    pub completed : is_some s.completed_at ≡ step_completed s.status
    pub compensating : is_some s.compensation_started_at ≡ compensation_started s.status
    pub compensated : is_some s.compensated_at ≡ compensation_ended s.status

  -- Any transition asked of an execution, allowed or refused, keeps its start and completion times in
  -- step with its status.
  pub transition-IsStamped :
      (e : Execution D) (to : Status) (now : ℕ) → IsStamped e → IsStamped (transition e to now).0
  unfolding transition can_transition_status
  transition-IsStamped e to now h = ground arith

  -- Any transition asked of a step, allowed or refused, keeps its four times in step with its status.
  pub step_transition-IsStepStamped :
      (s : StepExecution D) (to : StepStatus) (now : ℕ)
      → IsStepStamped s
      → IsStepStamped (step_transition s to now).0
  unfolding step_transition can_transition_step_status
  step_transition-IsStepStamped s to now h = ground arith
