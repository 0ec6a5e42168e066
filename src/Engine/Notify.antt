-- ===== src/Engine/Notify.antt =====
-- The observers of execute.go (startSpan to observeDuration): spans, events, logs and metrics. None
-- of them has a result that the engine looks at.
use go_orchestrator.Prelude.{ℕ, String, none, some, List, [], ◌∷◌, ◌++◌, str_eq, if◌then◌else◌}
use go_orchestrator.Prelude.Int.{ℤ, sub_ℕ}
use go_orchestrator.Context.{Context, span}
use go_orchestrator.Status.{Status, StepStatus, status_text, is_terminal}
use go_orchestrator.Events.{
  Event, EventType, event_type_text, saga_event_type, step_event_type, is_failure,
}
use go_orchestrator.Execution.{Execution, StepExecution}
use go_orchestrator.Engine.Monad.{
  M, Run, ◌>>=◌, ◌>>◌, pure, outside, ask_outside, record_event, now, get_exec,
}

-- A log attribute or a label, which is left out if it is empty.
abbrev attribute : String → String → List String
attribute key value = if str_eq value "" then [] else key ∷ value ∷ []

-- The events that `notifyExec` and `notifyStep` build.
abbrev pub exec_event : {D : Type 0} → EventType → Execution D → ℕ → Event
exec_event type exec at = record {
  type = type;
  execution_id = exec.id;
  saga_name = exec.saga_name;
  step = "";
  error = exec.error;
  at = at;
}

abbrev pub step_event : {D : Type 0} → EventType → Execution D → StepExecution D → ℕ → Event
step_event type exec step at = record {
  type = type;
  execution_id = exec.id;
  saga_name = exec.saga_name;
  step = step.name;
  error = step.error;
  at = at;
}

module _ {W D : Type 0} where
  -- `startSpan`: the context for the span's body; with no tracer the context itself.
  abbrev pub span_context : Run W D → Context → String → Context
  span_context rs ctx name = elim rs.definition.tracer [ none ↦ ctx | some t ↦ span ctx name ]

  unfoldable pub start_span : Run W D → Context → String → M W D (Unit {0})
  start_span rs ctx name = elim rs.definition.tracer [
    | none ↦ pure tt
    | some t ↦ outside (t.start_span ctx name)
  ]

  -- The function that `startSpan` returns, called when the span ends.
  unfoldable pub end_span : Run W D → Context → String → M W D (Unit {0})
  end_span rs ctx name = elim rs.definition.tracer [
    | none ↦ pure tt
    | some t ↦ outside (t.end_span ctx name)
  ]

  -- `publish`: a panic of the publisher is recovered and dropped.
  unfoldable pub publish : Run W D → Context → Event → M W D (Unit {0})
  publish rs ctx ev = elim rs.definition.publisher [
    | none ↦ pure tt
    | some p ↦ ask_outside (p.publish ctx ev) >>= λ recovered. record_event ev
  ]

  -- `logEvent`.
  unfoldable pub log_event : Run W D → Context → Event → M W D (Unit {0})
  log_event rs ctx ev = elim rs.definition.logger [
    | none ↦ pure tt
    | some l ↦ outside (
        l.log ctx (is_failure ev.type) (event_type_text ev.type) (
          ("execution_id" ∷ ev.execution_id ∷ "saga" ∷ ev.saga_name ∷ [])
          ++ (attribute "step" ev.step ++ attribute "error" ev.error)))
  ]

  -- `incEventCounter`.
  unfoldable pub inc_event_counter : Run W D → Event → M W D (Unit {0})
  inc_event_counter rs ev = elim rs.definition.metrics [
    | none ↦ pure tt
    | some m ↦ outside (
        m.inc_counter "saga_events_total" (
          ("saga" ∷ ev.saga_name ∷ "event" ∷ event_type_text ev.type ∷ [])
          ++ attribute "step" ev.step))
  ]

  -- `observeDuration`.
  unfoldable pub observe_duration : Run W D → String → ℤ → List String → M W D (Unit {0})
  observe_duration rs name d labels = elim rs.definition.metrics [
    | none ↦ pure tt
    | some m ↦ outside (m.observe_duration name d labels)
  ]

  -- `publishAndLog`.
  unfoldable pub publish_and_log : Run W D → Context → Event → M W D (Unit {0})
  unfolding publish log_event inc_event_counter
  publish_and_log rs ctx ev = do publish rs ctx ev; log_event rs ctx ev; inc_event_counter rs ev

  -- The last part of `notifyExec`: a terminal status of an execution that has started.
  unfoldable pub observe_end : Run W D → Execution D → Status → M W D (Unit {0})
  unfolding observe_duration
  observe_end rs exec to = elim exec.started_at [
    | none ↦ pure tt
    | some started ↦ if is_terminal to then observe started else pure tt
  ]
    where
      observe : ℕ → M W D (Unit {0})
      observe started = do
        t ← now rs.runtime
        observe_duration rs "saga_duration_seconds" (sub_ℕ t started)
            ("saga" ∷ exec.saga_name ∷ "status" ∷ status_text to ∷ [])

  -- `notifyExec`.
  unfoldable pub notify_exec : Run W D → Context → Status → M W D (Unit {0})
  unfolding publish_and_log observe_end
  notify_exec rs ctx to = elim (saga_event_type to) [
    | none ↦ pure tt
    | some type ↦ do
      exec ← get_exec
      at ← now rs.runtime
      publish_and_log rs ctx (exec_event type exec at)
      observe_end rs exec to
  ]

  -- `notifyStep`.
  unfoldable pub notify_step : Run W D → Context → StepExecution D → StepStatus → M W D (Unit {0})
  unfolding publish_and_log
  notify_step rs ctx step to = elim (step_event_type to) [
    | none ↦ pure tt
    | some type ↦ do
      exec ← get_exec
      at ← now rs.runtime
      publish_and_log rs ctx (step_event type exec step at)
  ]
