-- ===== src/Events/Laws.antt =====
-- The nine lifecycle points of events.go.
use go_orchestrator.Prelude.{◌≡◌, ◌≢◌, ◌⊎◌, true, false, none, some, arith}
use go_orchestrator.Status.{Status, is_terminal}
use go_orchestrator.Events.{EventType, saga_event_type}

-- Every terminal status of an execution has an event, and it is `saga_completed` for `completed`
-- alone: each other terminal status gives `saga_failed`. Of the other statuses `running` has the event
-- `saga_started`, and no other has an event.
pub saga_event_type_lem :
    (s : Status)
    → (is_terminal s ≡ true
        → (saga_event_type s ≡ some EventType.saga_completed) × (s ≡ Status.completed)
          ⊎ (saga_event_type s ≡ some EventType.saga_failed) × (s ≢ Status.completed))
      × (is_terminal s ≡ false
          → (s ≡ Status.running → saga_event_type s ≡ some EventType.saga_started)
            × (s ≢ Status.running → saga_event_type s ≡ none))
saga_event_type_lem s = ground arith
