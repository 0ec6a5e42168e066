-- ===== src/Tests/Parts.antt =====
-- The theorems about the parts other than the engine at concrete inputs.
use mathlib.Core.List.{Perm, ◌++◌ as ◌+++◌}
use Prim.Native.String.{◌++◌}
use go_orchestrator.Prelude.{
  ◌%◌, Option, ap, arith, ◌==◌, if◌then◌else◌, suc, ℕ, ℕ, ◌*◌, ◌^◌, ◌≤◌, ◌<◌, min, String, ◌≡◌, ◌≢◌,
  refl, ◌⊎◌, true, false, none, some, List, [], ◌∷◌, All, arith, str_eq→ne,
}
use go_orchestrator.Prelude.Int.{ℤ, pos, ◌≤ℤ◌, ◌<ℤ◌}
use go_orchestrator.Status.{Status, StepStatus, is_terminal}
use go_orchestrator.Errors.{
  Error, Target, message, step_error, wrap, error_is, is_non_retryable, non_retryable,
}
use go_orchestrator.Errors.Wrapping.{itself, in_step, in_message, Wraps-is}
use go_orchestrator.Context.{caller, operation_id, compensation_operation_id}
use go_orchestrator.Context.OperationId.{operation_id_inj, operation_id_collides}
use go_orchestrator.Events.{EventType, saga_event_type}
use go_orchestrator.Events.Laws.{saga_event_type_lem}
use go_orchestrator.Execution.{Execution, transition, step_transition}
use go_orchestrator.Execution.Timestamps.{
  IsStamped, IsStepStamped, transition-IsStamped, step_transition-IsStepStamped,
}
use go_orchestrator.Retry.{no_retry, backoff_delay}
use go_orchestrator.Retry.Backoff.{backoff_delay-le, backoff_delay_lem, backoff_wraps}
use go_orchestrator.Definition.{StepDefinition, Definition, add_step, is_blank}
use go_orchestrator.Definition.Options.{OptionCall, of_timeout, of_retry_policy, build}
use go_orchestrator.Definition.Building.{Decides, AsAsked, build_lem}
use go_orchestrator.Definition.Names.{IsNamed, add_steps_lem}
use go_orchestrator.Engine.Resume.{fresh_step}
use go_orchestrator.Idgen.{new as new_identifier}
use go_orchestrator.Idgen.Hex.{Fills, Draws, new_lem}
use go_orchestrator.Recovery.{RecoveryPolicy, RecoveryManager, recover_listed, sort}
use go_orchestrator.Recovery.Order.{IsSorted, sort_lem}
use go_orchestrator.Recovery.Loop.{Gives, Matches, recover_lem}
use go_orchestrator.Memory.{
  MemoryStore, lookup, save as save_memory, get, list_incomplete, acquire, release, holds,
}
use go_orchestrator.Memory.Laws.{save-get_lem}
use go_orchestrator.Memory.Leases.{acquire_lem, release_lem}
use go_orchestrator.Memory.Incomplete.{IsKeyed, IsIn, save-list_incomplete}
use go_orchestrator.Tests.Examples.{half, done}
use go_orchestrator.Tests.{runtime, add_one, saga, good, bad}

abbrev manager : RecoveryManager ℕ ℕ
manager = record {
  lister = record { list_incomplete = λ ctx w. ((half ∷ [], none), w) };
  sagas = ("s", bad) ∷ [];
  policy = RecoveryPolicy.recover_automatically;
}

abbrev stranger : Execution ℕ
stranger = record half { id = "e0"; saga_name = "t"; created_at = 0 }

recover_lem_example :
    Gives runtime manager caller
      (λ out. Matches runtime manager caller (sort (half ∷ stranger ∷ [])) out.0 × (out.1 ≡ none))
      (recover_listed runtime manager caller 0 (half ∷ stranger ∷ [], none) 0)
recover_lem_example =
    recover_lem runtime manager caller 0 (half ∷ stranger ∷ []) 0
      (((refl, (refl, tt)), record { sized = refl; fits = (refl, tt) }, refl), (tt, tt))

sort_lem_example :
    IsSorted (sort (half ∷ stranger ∷ []))
    × Perm (sort (half ∷ stranger ∷ [])) (half ∷ stranger ∷ [])
sort_lem_example = sort_lem (half ∷ stranger ∷ [])

abbrev empty_saga : Definition ℕ ℕ
empty_saga = saga [] []

add_steps_lem_example :
    IsNamed good
    × (good.steps ≡ empty_saga.steps +++ (add_one "a" ∷ add_one "b" ∷ []))
    × (false ≡ true → (add_one "a" ∷ add_one "b" ∷ []) ≡ [])
unfolding add_step is_blank
add_steps_lem_example =
    add_steps_lem (add_one "a" ∷ add_one "b" ∷ []) empty_saga good
      (record { unique = tt; listed = refl; named = tt; acts = tt }) refl

abbrev calls : List (OptionCall ℕ ℕ)
calls = of_timeout (pos 5) ∷ of_retry_policy (some no_retry) ∷ []

abbrev two_steps : List (StepDefinition ℕ ℕ)
two_steps = add_one "a" ∷ add_one "b" ∷ []

build_lem_example : Decides true (AsAsked "s" two_steps) (build "s" calls two_steps)
unfolding is_blank
build_lem_example = build_lem "s" calls two_steps

abbrev store : MemoryStore ℕ
store = record {
  data_map = ("e1", half) ∷ [];
  leases = ("e1", record { owner = "p"; expires = 9 }) ∷ [];
}

save-get_lem_example :
    (done.id ≢ ""
      → ((save_memory done store).0 ≡ none)
        × (get done.id (save_memory done store).1 ≡ (some done, none))
        × ((id : String) → done.id ≢ id → get id (save_memory done store).1 ≡ get id store))
    × (done.id ≡ "" → ((save_memory done store).0 ≢ none) × ((save_memory done store).1 ≡ store))
save-get_lem_example = save-get_lem done store

save-list_incomplete_example :
    IsKeyed (save_memory done store).1.data_map
    × (true ≡ false → IsIn done (list_incomplete (save_memory done store).1).0)
    × (true ≡ true → All (λ e. e.id ≢ "e1") (list_incomplete (save_memory done store).1).0)
    × All (λ e. is_terminal e.status ≡ false) (list_incomplete store).0
unfolding lookup
save-list_incomplete_example =
    save-list_incomplete done store (str_eq→ne "e1" "" refl) (refl, refl, tt)

acquire_lem_example :
    (8 < 9
      → acquire "e1" "q" (pos 1) 8 (acquire "e1" "p" (pos 5) 4 store).1
        ≡ ((false, none), (acquire "e1" "p" (pos 5) 4 store).1))
    × (9 ≤ 8 → (acquire "e1" "q" (pos 1) 8 (acquire "e1" "p" (pos 5) 4 store).1).0 ≡ (true, none))
    × ((acquire "e1" "p" (pos 1) 8 (acquire "e1" "p" (pos 5) 4 store).1).0 ≡ (true, none))
    × ((id' : String)
        → "e1" ≢ id'
        → lookup id' (acquire "e1" "p" (pos 5) 4 store).1.leases ≡ lookup id' store.leases)
unfolding acquire lookup
acquire_lem_example =
    acquire_lem "e1" "p" "q" (pos 5) (pos 1) 4 8 store (str_eq→ne "p" "q" refl) refl

release_lem_example :
    (holds "p" (lookup "e1" store.leases) ≡ true
      → (lookup "e1" (release "e1" "p" store).1.leases ≡ none)
        × ((other : String) (ttl : ℤ) (now : ℕ)
            → (acquire "e1" other ttl now (release "e1" "p" store).1).0 ≡ (true, none)))
    × (holds "p" (lookup "e1" store.leases) ≡ false → (release "e1" "p" store).1 ≡ store)
release_lem_example = release_lem "e1" "p" store

transition-IsStamped_example : IsStamped (transition half Status.completed 7).0
transition-IsStamped_example =
    transition-IsStamped half Status.completed 7 (record { started = refl; completed = refl })

step_transition-IsStepStamped_example :
    IsStepStamped (step_transition (fresh_step (add_one "b")) StepStatus.running 7).0
step_transition-IsStepStamped_example =
    step_transition-IsStepStamped (fresh_step (add_one "b")) StepStatus.running 7
      (record { started = refl; completed = refl; compensating = refl; compensated = refl })

backoff_delay_lem_example : backoff_delay (pos 3) (pos 20) (pos 4) ≡ pos (min (3 * 2 ^ 2) 20)
backoff_delay_lem_example = backoff_delay_lem 3 20 2 (omega arith)

backoff_delay-le_example : backoff_delay (pos 3) (pos 20) (pos 9) ≤ℤ pos 20
backoff_delay-le_example = backoff_delay-le (pos 3) (pos 20) (pos 9)

backoff_wraps_example :
    backoff_delay (pos 5000000000000000000) (pos 6000000000000000000) (pos 3) <ℤ pos 0
backoff_wraps_example =
    backoff_wraps 5000000000000000000 6000000000000000000 (omega arith) (omega arith) (omega arith)

abbrev first : String
first = "e1"

abbrev second : String
second = "e2"

abbrev pay : String
pay = "pay"

abbrev ship : String
ship = "ship"

operation_id_inj_example :
    (operation_id first pay ≡ operation_id second ship → (first ≡ second) × (pay ≡ ship))
    × (compensation_operation_id first pay ≡ compensation_operation_id second ship
        → (first ≡ second) × (pay ≡ ship))
    × (operation_id first pay ≡ compensation_operation_id second ship
        → (first ≡ second) × (pay ≡ ship ++ "/compensate"))
operation_id_inj_example = operation_id_inj first second pay ship refl

operation_id_collides_example :
    operation_id "e1" ("charge" ++ "/compensate") ≡ compensation_operation_id "e1" "charge"
operation_id_collides_example = operation_id_collides "e1" "charge"

abbrev failure : Error
failure = wrap "saga" (step_error "a" (non_retryable (message "no")))

Wraps-is_example :
    ((t : Target) → error_is (non_retryable (message "no")) t ≡ true → error_is failure t ≡ true)
    × (is_non_retryable (non_retryable (message "no")) ≡ true → is_non_retryable failure ≡ true)
Wraps-is_example = Wraps-is (in_message "saga" (in_step "a" itself))

saga_event_type_lem_example :
    (is_terminal Status.running ≡ true
      → (saga_event_type Status.running ≡ some EventType.saga_completed)
          × (Status.running ≡ Status.completed)
        ⊎ (saga_event_type Status.running ≡ some EventType.saga_failed)
          × (Status.running ≢ Status.completed))
    × (is_terminal Status.running ≡ false
        → (Status.running ≡ Status.running
            → saga_event_type Status.running ≡ some EventType.saga_started)
          × (Status.running ≢ Status.running → saga_event_type Status.running ≡ none))
saga_event_type_lem_example = saga_event_type_lem Status.running

-- A source that counts its reads, and fails at the sixth.
abbrev bytes_at : ℕ → List ℕ → List ℕ
bytes_at w [] = []
bytes_at w (b ∷ rest) = (w % 256) ∷ bytes_at w rest

abbrev read_count : List ℕ → ℕ → (List ℕ × Option Error) × ℕ
read_count buffer w = ((bytes_at w buffer, if w == 5 then some (message "no") else none), suc w)

bytes_at-Fills : (w : ℕ) (buffer : List ℕ) → Fills buffer (bytes_at w buffer)
bytes_at-Fills w [] = (refl, tt)
bytes_at-Fills w (b ∷ rest) = let (l, h) = bytes_at-Fills w rest in (ap suc l, (omega arith, h))

new_lem_example : Draws read_count 4 (new_identifier read_count 4)
new_lem_example = new_lem read_count (λ buffer w. bytes_at-Fills w buffer) 4
