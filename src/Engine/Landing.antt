-- ===== src/Engine/Landing.antt =====
-- What the functions of execute.go have saved when they return: after an error of a save or of a
-- request for the lease nothing more is done, and a run ends with a save.
pub mod Text
pub mod Undo
pub mod Resume
pub mod Execute
use go_orchestrator.Prelude.{
  ℕ, String, ◌≡◌, refl, sym, ap, subst, ◌∙◌, ◌⊎◌, inl, inr, Bool, true, false, Option, none, some,
  List, [], ◌∷◌, arith, get_elem?, Bool-cases, if◌then◌else◌,
}
use go_orchestrator.Status.{Status, StepStatus, can_transition_status}
use go_orchestrator.Errors.{Error, Format, compensation_failed, error_text}
use go_orchestrator.Context.{Context}
use go_orchestrator.Execution.{Execution, StepExecution, transition, step_transition, enter}
use go_orchestrator.Engine.Monad.{
  M, Run, State, Outcome, ok, panic, Call, saved, leased, after, unless_error, ◌>>=◌, ◌>>◌, pure,
  get_step,
}
use go_orchestrator.Engine.Notify.{notify_exec, notify_step}
use go_orchestrator.Engine.Persist.{
  save, transition_exec, transition_step, accept_step, accept_exec,
}
use go_orchestrator.Engine.Logic.{IsBroken, Ensures}
use go_orchestrator.Engine.Safety.Persist.{Quiet, notify_exec-Quiet, notify_step-Quiet}
use go_orchestrator.Engine.Rollback.Picks.{get_step-any}
use go_orchestrator.Engine.Kept.{IsNewest}

-- What error a run returns after the original one, by the status that it leaves.
abbrev pub Names : Error → Error → Status → Type 0
Names original e Status.failed = e ≡ original
Names original e Status.compensated = e ≡ original
Names original e Status.compensation_failed = e ≡ compensation_failed original
Names original e _ = ⊥

module _ {D : Type 0} where
  -- The end of a run that gives up because of this error, the text of which the execution stores.
  abbrev pub GivesUp : Format → Error → Option Error → Execution D → Type 0
  GivesUp f original none x = ⊥
  GivesUp f original (some e) x = Names original e x.status × (x.error ≡ error_text f original)

  -- The end of a run that is completed, or gives up.
  abbrev pub Accounts : Format → Option Error → Execution D → Type 0
  Accounts f none x = x.status ≡ Status.completed
  Accounts f (some e) x =
      (original : Error) × Names original e x.status × (x.error ≡ error_text f original)

  pub GivesUp-Accounts :
      (f : Format) (original : Error) (e : Option Error) (x : Execution D)
      → GivesUp f original e x
      → Accounts f e x
  GivesUp-Accounts f original none x h = absurd h
  GivesUp-Accounts f original (some e) x h = (original, h.0, h.1)

module _ {W D : Type 0} where
  -- An error that is returned is that of the newest call.
  abbrev pub Breaks : Outcome (Option Error) × State W D → Type 0
  Breaks (ok none, s) = Unit
  Breaks (ok (some e), s) = IsBroken e s.calls
  Breaks (panic p, s) = Unit

  -- The same, and with no error the newest call is a save of the execution as it is, which is this one.
  abbrev pub Writes : Execution D → Outcome (Option Error) × State W D → Type 0
  Writes x (ok none, s) = IsNewest s.exec s.calls × (s.exec ≡ x)
  Writes x (ok (some e), s) = IsBroken e s.calls
  Writes x (panic p, s) = Unit

  -- The execution that is left was saved last, and `Q` holds of it and the error, if there is one, or
  -- the error is that of the newest call.
  abbrev pub Lands :
      (Option Error → Execution D → Type 0) → Outcome (Option Error) × State W D → Type 0
  Lands Q (ok none, s) = IsNewest s.exec s.calls × Q none s.exec
  Lands Q (ok (some e), s) = (IsNewest s.exec s.calls × Q (some e) s.exec) ⊎ IsBroken e s.calls
  Lands Q (panic p, s) = Unit

  pub Writes-Lands :
      (Q : Option Error → Execution D → Type 0) (y : Execution D)
      (x : Outcome (Option Error) × State W D)
      → Writes y x
      → Q none y
      → Lands Q x
  Writes-Lands Q y (ok none, s) h q = (h.0, subst (Q none) (sym h.1) q)
  Writes-Lands Q y (ok (some e), s) h q = inr h
  Writes-Lands Q y (panic p, s) h q = tt

  pub Writes-Breaks :
      (y : Execution D) (x : Outcome (Option Error) × State W D) → Writes y x → Breaks x
  Writes-Breaks y (ok none, s) h = tt
  Writes-Breaks y (ok (some e), s) h = h
  Writes-Breaks y (panic p, s) h = tt

  pub weaken-Lands :
      (P Q : Option Error → Execution D → Type 0) (x : Outcome (Option Error) × State W D)
      → ((e : Option Error) (y : Execution D) → P e y → Q e y)
      → Lands P x
      → Lands Q x
  weaken-Lands P Q (ok none, s) h l = (l.0, h none s.exec l.1)
  weaken-Lands P Q (ok (some e), s) h (inl l) = inl (l.0, h (some e) s.exec l.1)
  weaken-Lands P Q (ok (some e), s) h (inr b) = inr b
  weaken-Lands P Q (panic p, s) h l = tt

  -- Only the end of a function matters.
  pub after-Lands :
      {A : Type 0} (Q : Option Error → Execution D → Type 0) (x : Outcome A × State W D)
      (f : A → M W D (Option Error))
      → ((a : A) (s : State W D) → Lands Q (f a s))
      → Lands Q (after x f)
  after-Lands Q (ok a, s) f h = h a s
  after-Lands Q (panic p, s) f h = tt

  pub after-Breaks :
      {A : Type 0} (x : Outcome A × State W D) (f : A → M W D (Option Error))
      → ((a : A) (s : State W D) → Breaks (f a s))
      → Breaks (after x f)
  after-Breaks (ok a, s) f h = h a s
  after-Breaks (panic p, s) f h = tt

  pub try-Lands :
      (Q : Option Error → Execution D → Type 0) (x : Outcome (Option Error) × State W D)
      (rest : M W D (Option Error))
      → Breaks x
      → ((s : State W D) → Lands Q (rest s))
      → Lands Q (after x (λ e. unless_error e rest))
  try-Lands Q (ok none, s) rest b h = h s
  try-Lands Q (ok (some e), s) rest b h = inr b
  try-Lands Q (panic p, s) rest b h = tt

  -- After a last transition of the execution, something more.
  pub entered-Lands :
      (Q : Option Error → Execution D → Type 0) (y : Execution D)
      (x : Outcome (Option Error) × State W D) (rest : M W D (Option Error))
      → Writes y x
      → ((s : State W D) → s.exec ≡ y → Lands Q (rest s))
      → Lands Q (after x (λ e. unless_error e rest))
  entered-Lands Q y (ok none, s) rest w h = h s w.1
  entered-Lands Q y (ok (some e), s) rest w h = inr w
  entered-Lands Q y (panic p, s) rest w h = tt

  pub try-Breaks :
      (x : Outcome (Option Error) × State W D) (rest : M W D (Option Error))
      → Breaks x
      → ((s : State W D) → Breaks (rest s))
      → Breaks (after x (λ e. unless_error e rest))
  try-Breaks (ok none, s) rest b h = h s
  try-Breaks (ok (some e), s) rest b h = b
  try-Breaks (panic p, s) rest b h = tt

  -- A last save, and then an error.
  pub last-Lands :
      (Q : Option Error → Execution D → Type 0) (y : Execution D)
      (x : Outcome (Option Error) × State W D) (e : Error)
      → Writes y x
      → Q (some e) y
      → Lands Q (after x (λ o. unless_error o (pure (some e))))
  last-Lands Q y (ok none, s) e h q = inl (h.0, subst (Q (some e)) (sym h.1) q)
  last-Lands Q y (ok (some z), s) e h q = inr h
  last-Lands Q y (panic p, s) e h q = tt

  save-Writes : (rs : Run W D) (ctx : Context) (s : State W D) → Writes s.exec (save rs ctx s)
  unfolding save
  save-Writes rs ctx s = ground arith

  -- What is told to the observers changes nothing of it.
  told-Writes :
      (y : Execution D) (s : State W D) (x : Outcome (Unit {0}) × State W D)
      → Ensures (Quiet s) x
      → IsNewest s.exec s.calls × (s.exec ≡ y)
      → Writes y (after x (λ _. pure none))
  told-Writes y s (ok a, t) q h = (rw (q.0, q.1) h.0, q.0 ∙ h.1)
  told-Writes y s (panic p, t) q h = tt

  notify-Writes :
      (y : Execution D) (x : Outcome (Option Error) × State W D) (m : M W D (Unit {0}))
      → ((s : State W D) → Ensures (Quiet s) (m s))
      → Writes y x
      → Writes y (after x (λ e. unless_error e (m >> pure none)))
  notify-Writes y (ok none, s) m q h = told-Writes y s (m s) (q s) h
  notify-Writes y (ok (some e), s) m q h = h
  notify-Writes y (panic p, s) m q h = tt

  -- The execution after a transition that starts in this state.
  abbrev pub entered : Run W D → Status → State W D → Execution D
  entered rs to s = enter to (rs.runtime.now (rs.runtime.tick s.world)) s.exec

  pub transition_exec-Writes :
      (rs : Run W D) (ctx : Context) (to : Status) (s : State W D)
      → Writes (entered rs to s) (transition_exec rs ctx to s)
  unfolding transition_exec transition
  transition_exec-Writes rs ctx to s = elim (Bool-cases (can_transition_status s.exec.status to)) [
    | inl p ↦ rw p (
        notify-Writes (entered rs to s) (save rs ctx t) (notify_exec rs ctx to)
          (notify_exec-Quiet rs ctx to) (save-Writes rs ctx t))
    | inr p ↦ rw p tt
  ]
    where
      t : State W D
      t = record s { world = rs.runtime.tick s.world; exec = entered rs to s }

  pub transition_step-Breaks :
      (rs : Run W D) (ctx : Context) (i : ℕ) (to : StepStatus) (s : State W D)
      → Breaks (transition_step rs ctx i to s)
  unfolding transition_step
  transition_step-Breaks rs ctx i to s = get_step-any Breaks i _ s tt (λ x found.
      after-Breaks
        (accept_step i (step_transition x to (rs.runtime.now (rs.runtime.tick s.world)))
          (record s { world = rs.runtime.tick s.world }))
        (λ _. save rs ctx >>= λ e. unless_error e told)
        (λ _ t.
          try-Breaks (save rs ctx t) told
            (Writes-Breaks t.exec (save rs ctx t) (save-Writes rs ctx t)) told-Breaks))
    where
      told : M W D (Option Error)
      told = get_step i >>= λ y. notify_step rs ctx y to >> pure none

      told-Breaks : (t : State W D) → Breaks (told t)
      told-Breaks t =
          get_step-any Breaks i _ t tt
            (λ y found. after-Breaks (notify_step rs ctx y to t) (λ _. pure none) (λ _ u. tt))
