-- ===== src/Recovery.antt =====
-- recovery.go: the recovery manager.
pub mod Order
pub mod Crash
pub mod Loop
use Prim.Native.String.{◌++◌}
use text.Mathlib.Text.{is_lt}
use go_orchestrator.Prelude.{
  ℕ, String, Bool, true, false, not, ◌&&◌, ◌||◌, Option, none, some, List, [], ◌∷◌, ◌==◌, ltb,
  str_eq, any, if◌then◌else◌,
}
use Prim.Native.String.{compare}
use go_orchestrator.Status.{StepStatus}
use go_orchestrator.Errors.{Error, Format, message, wrap, recovery_skipped}
use go_orchestrator.Context.{Context}
use go_orchestrator.Interfaces.{Runtime, Lister}
use go_orchestrator.Execution.{Execution, StepExecution}
use go_orchestrator.Definition.{Definition}
use go_orchestrator.Engine.Monad.{Outcome, ok, panic, Panic, State}
use go_orchestrator.Engine.Compensate.{has_status}
use go_orchestrator.Engine.Resume.{resume}

pub data RecoveryPolicy : Type 0 where
  recover_automatically recover_skip_in_flight : RecoveryPolicy

pub record RecoveryResult (D : Type 0) : Type 0 where
  pub execution : Execution D
  pub err : Option Error

-- `sagas` is the map from names to definitions, as a list of its entries.
pub record RecoveryManager (W D : Type 0) : Type 0 where
  pub lister : Lister W D
  pub sagas : List (String × Definition W D)
  pub policy : RecoveryPolicy

-- The options of `NewRecoveryManager`; `none` is a panic.
abbrev pub RecoveryOption : Type 0 → Type 0 → Type 0
RecoveryOption W D = RecoveryManager W D → Option (RecoveryManager W D)

module _ {D : Type 0} where
  -- `hasInFlightStep`.
  abbrev pub has_in_flight_step : Execution D → Bool
  has_in_flight_step exec =
      any (λ s. has_status StepStatus.running s || has_status StepStatus.compensating s) exec.steps

  -- Whether `Recover` leaves the execution alone.
  abbrev pub skips : RecoveryPolicy → Execution D → Bool
  skips RecoveryPolicy.recover_automatically exec = false
  skips RecoveryPolicy.recover_skip_in_flight exec = has_in_flight_step exec

  -- The error for an execution of a saga that is not registered.
  abbrev pub no_definition : Format → Execution D → Error
  no_definition f exec = message (
      "saga: no definition registered for saga "
      ++ (f.quote exec.saga_name ++ (" (execution " ++ (f.quote exec.id ++ ")"))))

  -- The order of `sort.Slice` in `Recover`.
  unfoldable pub less : Execution D → Execution D → Bool
  less a b =
      if not (a.created_at == b.created_at)
      then ltb a.created_at b.created_at
      else is_lt (compare a.id b.id)

  -- `sort.Slice`, as an insertion sort.
  unfoldable pub insert : Execution D → List (Execution D) → List (Execution D)
  insert a [] = a ∷ []
  insert a (b ∷ rest) = if less b a then b ∷ insert a rest else a ∷ b ∷ rest

  unfoldable pub sort : List (Execution D) → List (Execution D)
  unfolding insert
  sort [] = []
  sort (a ∷ rest) = insert a (sort rest)

module _ {W D : Type 0} where
  abbrev pub find_saga : String → List (String × Definition W D) → Option (Definition W D)
  find_saga name [] = none
  find_saga name ((n, d) ∷ rest) = if str_eq name n then some d else find_saga name rest

  -- The function that `WithSaga` returns: it panics on a name that is there already.
  abbrev pub register : Definition W D → RecoveryOption W D
  register d r = elim (find_saga d.name r.sagas) [
    | none ↦ some (record r { sagas = (d.name, d) ∷ r.sagas })
    | some other ↦ none
  ]

  -- `WithSaga`, which panics on a nil definition.
  abbrev pub with_saga : Option (Definition W D) → Option (RecoveryOption W D)
  with_saga none = none
  with_saga (some d) = some (register d)

  -- `WithRecoveryPolicy`.
  abbrev pub with_recovery_policy : RecoveryPolicy → RecoveryOption W D
  with_recovery_policy policy r = some (record r { policy = policy })

  -- `for _, opt := range opts { opt(r) }`.
  abbrev pub apply_recovery_options : List (RecoveryOption W D) → RecoveryOption W D
  apply_recovery_options [] r = some r
  apply_recovery_options (opt ∷ opts) r = elim (opt r) [
    | none ↦ none
    | some r' ↦ apply_recovery_options opts r'
  ]

  -- `NewRecoveryManager`, which panics on a nil lister.
  abbrev pub new_recovery_manager :
      Option (Lister W D) → List (RecoveryOption W D) → Option (RecoveryManager W D)
  new_recovery_manager none opts = none
  new_recovery_manager (some lister) opts =
      apply_recovery_options opts
        (record { lister = lister; sagas = []; policy = RecoveryPolicy.recover_automatically })

  -- `d.resume(ctx, exec)` for one execution, with the state that it starts from.
  abbrev pub resume_one :
      Runtime W
      → Definition W D
      → Context
      → Execution D
      → ℕ
      → W
      → Outcome (Option Error) × State W D
  resume_one r d ctx exec pointer w =
      resume r d ctx
        (record { world = w; exec = exec; next_pointer = pointer; calls = []; events = [] })

  -- The result of a run, for the execution that the run left.
  abbrev pub finished : Outcome (Option Error) × State W D → Outcome (RecoveryResult D) × (ℕ × W)
  finished (ok e, s) = (ok (record { execution = s.exec; err = e }), (s.next_pointer, s.world))
  finished (panic p, s) = (panic p, (s.next_pointer, s.world))

  -- One more result in front of those of the rest, unless something panicked.
  abbrev pub joined :
      Outcome (RecoveryResult D)
      → Outcome (List (RecoveryResult D)) × W
      → W
      → Outcome (List (RecoveryResult D)) × W
  joined (panic p) rest w = (panic p, w)
  joined (ok x) (panic p, w') w = (panic p, w')
  joined (ok x) (ok xs, w') w = (ok (x ∷ xs), w')

  abbrev pub with_no_error :
      Outcome (List (RecoveryResult D)) × W → Outcome (List (RecoveryResult D) × Option Error) × W
  with_no_error (panic p, w) = (panic p, w)
  with_no_error (ok xs, w) = (ok (xs, none), w)

  -- What comes of one execution of the loop, by the definition that is registered for it and by
  -- whether the policy skips it: a result with the world after it, or a panic.
  abbrev pub recover_found :
      Runtime W
      → Context
      → Execution D
      → ℕ
      → W
      → Option (Definition W D)
      → Bool
      → Outcome (RecoveryResult D) × (ℕ × W)
  recover_found r ctx exec pointer w none skip =
      (ok (record { execution = exec; err = some (no_definition r.format exec) }), (pointer, w))
  recover_found r ctx exec pointer w (some d) true =
      (ok (record { execution = exec; err = some recovery_skipped }), (pointer, w))
  recover_found r ctx exec pointer w (some d) false = finished (resume_one r d ctx exec pointer w)

  -- One round of the loop of `Recover`.
  abbrev pub recover_one :
      Runtime W
      → RecoveryManager W D
      → Context
      → Execution D
      → ℕ
      → W
      → Outcome (RecoveryResult D) × (ℕ × W)
  recover_one r m ctx exec pointer w =
      recover_found r ctx exec pointer w (find_saga exec.saga_name m.sagas) (skips m.policy exec)

  -- The loop of `Recover`. A panic ends it: the results are lost with it.
  unfoldable pub recover_loop :
      Runtime W
      → RecoveryManager W D
      → Context
      → List (Execution D)
      → ℕ
      → W
      → Outcome (List (RecoveryResult D)) × W
  recover_loop r m ctx [] pointer w = (ok [], w)
  recover_loop r m ctx (exec ∷ rest) pointer w =
      let (o, (pointer', w')) = recover_one r m ctx exec pointer w in
      joined o (recover_loop r m ctx rest pointer' w') w'

  -- `Recover`, by the results of `ListIncomplete`.
  unfoldable pub recover_listed :
      Runtime W
      → RecoveryManager W D
      → Context
      → ℕ
      → List (Execution D) × Option Error
      → W
      → Outcome (List (RecoveryResult D) × Option Error) × W
  unfolding recover_loop sort
  recover_listed r m ctx pointer (incomplete, some e) w =
      (ok ([], some (wrap "saga: failed to list incomplete executions" e)), w)
  recover_listed r m ctx pointer (incomplete, none) w =
      with_no_error (recover_loop r m ctx (sort incomplete) pointer w)

  -- `Recover`. The addresses of new errors begin at `pointer`.
  unfoldable pub recover :
      Runtime W
      → RecoveryManager W D
      → Context
      → ℕ
      → W
      → Outcome (List (RecoveryResult D) × Option Error) × W
  unfolding recover_listed
  recover r m ctx pointer w =
      let (listed, w') = m.lister.list_incomplete ctx w in recover_listed r m ctx pointer listed w'
