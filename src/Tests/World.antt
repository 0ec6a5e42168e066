-- ===== src/Tests/World.antt =====
-- The theorems about the in-memory store of store/memory/memory.go at concrete inputs.
use go_orchestrator.Prelude.{
  All, ℕ, suc, String, ◌≡◌, ◌≢◌, ◌<◌, refl, true, false, none, some, [], ◌∷◌, arith,
}
use go_orchestrator.Prelude.Int.{ℤ, pos}
use go_orchestrator.Context.{caller, ended}
use go_orchestrator.Interfaces.{Runtime}
use go_orchestrator.Retry.{no_retry}
use go_orchestrator.Definition.{StepDefinition, Definition, step}
use go_orchestrator.Engine.Resume.{execute}
use go_orchestrator.Engine.Attempts.{run_step}
use go_orchestrator.Engine.Logic.{Ensures}
use go_orchestrator.Engine.Kept.{IsApart, IsStepApart}
use go_orchestrator.Engine.Invariants.Leases.{AllLeased, execute_leased}
use go_orchestrator.Memory.{
  MemoryStore, lookup, get, found, new, acquire, release, list_incomplete, save as save_memory,
}
use go_orchestrator.Memory.Incomplete.{IsIn}
use go_orchestrator.Memory.Backend.Recovery.{stopped_recovers}
use go_orchestrator.Recovery.{resume_one}
use go_orchestrator.Engine.Safety.Execute.{EndsWell}
use go_orchestrator.Engine.Persist.{transition_exec, transition_step, save}
use go_orchestrator.Engine.Notify.{notify_exec, notify_step}
use go_orchestrator.Status.{
  is_terminal, Status, StepStatus, can_transition_status, can_transition_step_status,
}
use go_orchestrator.Execution.{Execution, transition, step_transition}
use go_orchestrator.Memory.Backend.{Place, IsPlace, memory_store}
use go_orchestrator.Memory.Backend.View.{latest, SameEntry}
use go_orchestrator.Memory.Backend.Runs.{IsStored, run_in_memory, execute_view, execute-IsStored}
use go_orchestrator.Memory.Exclusion.{System, Reach, start, next, grants, update}
use go_orchestrator.Memory.Exclusion.Truth.{lease_excludes}
use go_orchestrator.Tests.{runtime, bad}

-- A world with a store in it.
abbrev World : Type 0
World = ℕ × MemoryStore ℕ

abbrev place : Place World ℕ
place = record { now = λ w. w.0; memory = λ w. w.1; put = λ m w. (w.0, m) }

abbrev world_runtime : Runtime World
world_runtime = record {
  now = λ w. w.0;
  tick = λ w. (suc w.0, w.1);
  caller_ended = λ w. none;
  sleep = λ ctx d w. (true, w);
  new_id = λ w. ("e1", w);
  format = runtime.format;
}

abbrev count : String → StepDefinition World ℕ
count name = step name (some (λ ctx x w. ((some 1, none), w))) (some (λ ctx x w. (none, w))) []

abbrev counting : Definition World ℕ
counting = record {
  name = "s";
  steps = count "a" ∷ count "b" ∷ [];
  step_set = "b" ∷ "a" ∷ [];
  frozen = false;
  store = memory_store place;
  retry_policy = no_retry;
  timeout = pos 0;
  lock_ttl = pos 1000;
  publisher = none;
  logger = none;
  metrics = none;
  tracer = none;
}

abbrev empty : World
empty = (0, new)

place-IsPlace : IsPlace place
place-IsPlace = record { memory-put = λ m w. refl }

count-IsStepApart : (id name : String) → IsStepApart (SameEntry place id) (count name)
count-IsStepApart id name = record {
  action = λ ctx x w. refl;
  compensate = λ ctx x w. refl;
  retry_policy = tt;
}

counting-IsApart : (id : String) → IsApart (SameEntry place id) world_runtime counting none
unfolding no_retry
counting-IsApart id = record {
  tick = λ w. refl;
  sleep = λ ctx d w. refl;
  publisher = tt;
  logger = tt;
  counters = tt;
  durations = tt;
  starts = tt;
  ends = tt;
  releases = tt;
  delays = λ n w. refl;
  steps = (count-IsStepApart id "a", (count-IsStepApart id "b", tt));
}

execute_leased_example :
    AllLeased counting.store.locker
      (execute world_runtime counting caller (some 5) 0 empty).1.1.calls
execute_leased_example = execute_leased world_runtime counting caller (some 5) 0 empty

execute_view_example :
    let s = (run_in_memory place world_runtime counting caller (some 5) 0 empty).1 in
    get "e1" s.world.1 ≡ found (latest "e1" s.calls (lookup "e1" empty.1.data_map))
execute_view_example =
    execute_view place world_runtime counting caller (some 5) 0 empty place-IsPlace
      (counting-IsApart "e1") (λ w. refl)

execute-IsStored_example :
    Ensures (IsStored place) (run_in_memory place world_runtime counting caller (some 5) 0 empty)
execute-IsStored_example =
    execute-IsStored place world_runtime counting caller (some 5) 0 empty (refl, (refl, tt))
      place-IsPlace (counting-IsApart "e1") (λ w. refl)

-- A step during which another owner gets hold of the lease.
abbrev robbed : StepDefinition World ℕ
robbed =
    step "b"
      (some (λ ctx x w. (
        (some 2, none),
        (w.0, record w.1 { leases = ("e1", record { owner = "thief"; expires = 1000000 }) ∷ [] }),
      )))
      none []

abbrev interrupted : Definition World ℕ
interrupted = record counting { steps = count "a" ∷ robbed ∷ [] }

interrupted-IsApart : (id : String) → IsApart (SameEntry place id) world_runtime interrupted none
unfolding no_retry
interrupted-IsApart id = record {
  tick = λ w. refl;
  sleep = λ ctx d w. refl;
  publisher = tt;
  logger = tt;
  counters = tt;
  durations = tt;
  starts = tt;
  ends = tt;
  releases = tt;
  delays = λ n w. refl;
  steps = (
    count-IsStepApart id "a",
    (record { action = λ ctx x w. refl; compensate = tt; retry_policy = tt }, tt),
  );
}

-- What the run of it leaves in the store.
abbrev left_behind : Execution ℕ
left_behind = record {
  id = "e1";
  saga_name = "s";
  status = Status.running;
  input = some 5;
  output = none;
  steps =
      record {
        name = "a";
        status = StepStatus.succeeded;
        attempts = 1;
        output = some 1;
        error = "";
        started_at = some 5;
        completed_at = some 8;
        compensation_started_at = none;
        compensated_at = none;
      }
      ∷ record {
        name = "b";
        status = StepStatus.running;
        attempts = 0;
        output = none;
        error = "";
        started_at = some 11;
        completed_at = none;
        compensation_started_at = none;
        compensated_at = none;
      }
      ∷ [];
  current_step = "b";
  error = "";
  created_at = 1;
  updated_at = 2;
  started_at = some 2;
  completed_at = none;
}

stopped_recovers_example :
    IsIn left_behind
      (list_incomplete
        (run_in_memory place world_runtime interrupted caller (some 5) 0 empty).1.world.1).0
    × All
        (λ e. is_terminal e.status ≡ false)
        (list_incomplete
          (run_in_memory place world_runtime interrupted caller (some 5) 0 empty).1.world.1).0
    × Ensures (EndsWell 2) (resume_one runtime bad caller left_behind 7 9)
unfolding execute transition_exec transition can_transition_status save notify_exec ended
    transition_step step_transition can_transition_step_status notify_step run_step no_retry lookup
    save_memory acquire release
stopped_recovers_example =
    stopped_recovers place world_runtime interrupted caller (some 5) 0 empty runtime bad caller 7 9
      left_behind place-IsPlace (interrupted-IsApart "e1") (λ w. refl) refl (refl, (refl, tt))
      (refl, (refl, tt)) refl refl refl

-- An owner has acquired a lease of 5 nanoseconds.
abbrev leased_once : System ℕ
leased_once = record {
  clock = 0;
  store = (acquire "e1" "a" (pos 5) 0 new).1;
  deadline = update "e1" "a" 5 (λ id owner. 0);
}

leased_once-Reach : Reach leased_once
unfolding acquire lookup
leased_once-Reach =
    next (record { clock = 0; store = new; deadline = λ id owner. 0 }) leased_once (start 0)
      (grants "e1" "a" (pos 5) refl)

lease_excludes_example :
    ((b : String) → leased_once.clock < leased_once.deadline "e1" b → "a" ≡ b)
    × ((b : String) (ttl : ℤ)
        → "a" ≢ b
        → acquire "e1" b ttl leased_once.clock leased_once.store
          ≡ ((false, none), leased_once.store))
    × ((ttl : ℤ) → (acquire "e1" "a" ttl leased_once.clock leased_once.store).0 ≡ (true, none))
lease_excludes_example = lease_excludes leased_once "e1" "a" leased_once-Reach (omega arith)
