-- ===== src/Engine/Monad.antt =====
-- The state of one `resume` call of execute.go, and the monad of the engine's functions: explicit
-- state passing with panics.
use go_orchestrator.Prelude.{ℕ, suc, String, Option, none, some, List, ◌∷◌, get_elem?, set}
use go_orchestrator.Errors.{Error}
use go_orchestrator.Context.{Context, ended}
use go_orchestrator.Interfaces.{Runtime, Locker}
use go_orchestrator.Events.{Event}
use go_orchestrator.Execution.{Execution, StepExecution}
use go_orchestrator.Definition.{Definition}

-- What can panic: a rejected transition (the engine's own `panic(err)`), an index out of range, and
-- a nil action that is called. `out_of_fuel` is no panic of the program: it stands for a retry loop
-- cut short by the model.
pub data Panic : Type 0 where
  rejected : Error → Panic
  index_out_of_range nil_action out_of_fuel : Panic

pub data Outcome {ℓ} (A : Type ℓ) : Type ℓ where
  ok : A → Outcome A
  panic : Panic → Outcome A

-- A call that the engine has made to code outside it, with its outcome.
pub data Call (D : Type 0) : Type 0 where
  saved : Execution D → Option Error → Call D
  leased : String → Option Error → Call D
  acted : String → Context → Option D → Option Error → Call D
  undone : String → Context → Option D → Option Error → Call D

-- The world, the execution that the run drives (Go's `exec` points at it), the address of the next
-- error that is allocated, and the calls made and the events published so far, newest first, each
-- event with the calls made before it. The engine never reads these two: they are there to state what
-- it did.
pub record State (W D : Type 0) : Type 0 where
  pub world : W
  pub exec : Execution D
  pub next_pointer : ℕ
  pub calls : List (Call D)
  pub events : List (Event × List (Call D))

-- `runState`, with the runtime.
pub record Run (W D : Type 0) : Type 0 where
  pub runtime : Runtime W
  pub definition : Definition W D
  pub locker : Option (Locker W)
  pub lock_owner : String

abbrev pub M : Type 0 → Type 0 → Type 0 → Type 0
M W D A = State W D → Outcome A × State W D

-- The rest of a function after a step of it.
abbrev pub after :
    {W D A B : Type 0} → Outcome A × State W D → (A → M W D B) → Outcome B × State W D
after (ok a, s) f = f a s
after (panic p, s) f = (panic p, s)

infixl 5 ◌>>=◌ ◌>>◌
abbrev pub ◌>>=◌ : {W D A B : Type 0} → M W D A → (A → M W D B) → M W D B
◌>>=◌ m f s = after (m s) f

abbrev pub ◌>>◌ : {W D A B : Type 0} → M W D A → M W D B → M W D B
m >> k = m >>= λ _. k

-- The second part of `ended`.
abbrev pub cause : Option (ℕ × Error) → Option Error
cause none = none
cause (some (time, e)) = some e

module _ {W D : Type 0} where
  abbrev pub pure : {A : Type 0} → A → M W D A
  pure a s = (ok a, s)

  abbrev pub throw : {A : Type 0} → Panic → M W D A
  throw p s = (panic p, s)

  abbrev pub get_exec : M W D (Execution D)
  get_exec s = (ok s.exec, s)

  abbrev pub put_exec : (Execution D → Execution D) → M W D (Unit {0})
  put_exec f s = (ok tt, record s { exec = f s.exec })

  abbrev pub record_call : Call D → M W D (Unit {0})
  record_call c s = (ok tt, record s { calls = c ∷ s.calls })

  abbrev pub record_event : Event → M W D (Unit {0})
  record_event ev s = (ok tt, record s { events = (ev, s.calls) ∷ s.events })

  -- `exec.Steps[i]`, read and written through a pointer to it.
  abbrev pub get_step : ℕ → M W D (StepExecution D)
  get_step i s = elim (get_elem? s.exec.steps i) [
    | none ↦ (panic index_out_of_range, s)
    | some step ↦ (ok step, s)
  ]

  abbrev pub put_step : ℕ → StepExecution D → M W D (Unit {0})
  put_step i step s = (ok tt, record s { exec = record s.exec { steps = set s.exec.steps i step } })

  -- A call that changes the world only.
  abbrev pub outside : (W → W) → M W D (Unit {0})
  outside f s = (ok tt, record s { world = f s.world })

  abbrev pub ask_outside : {A : Type 0} → (W → A × W) → M W D A
  ask_outside f s = let (a, w) = f s.world in (ok a, record s { world = w })

  -- The address of a new error.
  abbrev pub allocate : M W D ℕ
  allocate s = (ok s.next_pointer, record s { next_pointer = suc s.next_pointer })

  -- `if err := m; err != nil { return err }`, and then the rest.
  abbrev pub unless_error : Option Error → M W D (Option Error) → M W D (Option Error)
  unless_error none rest = rest
  unless_error (some e) rest = pure (some e)

  module _ (r : Runtime W) where
    -- `time.Now()`.
    abbrev pub now : M W D ℕ
    now s = let w = r.tick s.world in (ok (r.now w), record s { world = w })

    -- `context.Cause(ctx)`, which is nil exactly while `ctx.Err()` is.
    abbrev pub poll : Context → M W D (Option Error)
    poll ctx s =
        let w = r.tick s.world in
        (ok (cause (ended (r.caller_ended w) (r.now w) ctx)), record s { world = w })
