-- ===== src/Engine/Kept/Transitions.antt =====
-- What transitionExec and transitionStep of execute.go keep.
use go_orchestrator.Prelude.{
  ℕ, ◌≡◌, refl, sym, ap, subst, ◌∙◌, inl, inr, Option, none, some, get_elem?, set,
  get_elem?-set_self, Bool-cases,
}
use go_orchestrator.Status.{Status, StepStatus, can_transition_status, can_transition_step_status}
use go_orchestrator.Errors.{Error}
use go_orchestrator.Context.{Context}
use go_orchestrator.Execution.{
  Execution, StepExecution, transition, step_transition, enter, enter_step,
}
use go_orchestrator.Engine.Monad.{
  M, Run, State, Outcome, ok, panic, after, ◌>>=◌, ◌>>◌, pure, get_step, unless_error,
}
use go_orchestrator.Engine.Notify.{notify_exec, notify_step}
use go_orchestrator.Engine.Persist.{save, transition_exec, transition_step}
use go_orchestrator.Engine.Safety.Persist.{get_step_lem, enter_step_lem}
use go_orchestrator.Engine.Kept.{Identity, IsKept, Good, Keeps, pure-Keeps, after-Good}
use go_orchestrator.Engine.Kept.Notify.{now-Keeps, Noted, notify_exec-Keeps, notify_step-Keeps}
use go_orchestrator.Engine.Kept.Persist.{
  enter_step-name, get_step-Good, put_step-Good, Written, save-Written,
}

module _ {W D : Type 0} {rs : Run W D} {v : Identity D} {Same : W → W → Type 0}
    {Holds : State W D → Type 0} (k : IsKept rs v Same Holds) where
  -- What is done after a save with no error.
  saved-Good :
      (s : State W D) (r : Outcome (Option Error) × State W D) (rest : M W D (Option Error))
      → Written k s r
      → ((t : State W D) → t.exec ≡ s.exec → Good v (Noted k t.exec) t → Good v Holds (rest t).1)
      → Good v Holds (after r (λ e. unless_error e rest)).1
  saved-Good s (ok none, t) rest p h = h t p.1 (p.0.0, (p.0.1, refl, p.2))
  saved-Good s (ok (some e), t) rest p h = p
  saved-Good s (panic x, t) rest p h = p

  -- What is done last, with its result dropped.
  noticed-Good :
      (m : M W D (Unit {0})) (t : State W D)
      → Good v (Noted k t.exec) (m t).1
      → Good v Holds ((m >> pure {A = Option Error} none) t).1
  noticed-Good m t g =
      after-Good v Holds (m t) (λ _. pure none) (g.0, g.1.0) (λ _. pure-Keeps v Holds none)

  transition_exec-Good :
      (ctx : Context) (to : Status) (s : State W D)
      → Good v Holds s
      → Good v Holds (transition_exec rs ctx to s).1
  unfolding transition_exec transition
  transition_exec-Good ctx to s g = elim (Bool-cases (can_transition_status s.exec.status to)) [
    | inl p ↦ rw p (
        saved-Good t (save rs ctx t) (notify_exec rs ctx to >> pure none)
          (save-Written k ctx t (g.0, k.changes u t.exec g.0 g.0 (inr p) moved.1))
          (λ t' same g'. noticed-Good (notify_exec rs ctx to) t' (
            (notify_exec-Keeps k t'.exec ctx to (ap (λ (e : Execution D). e.status) same)).apply t'
              g')))
    | inr p ↦ rw p moved
  ]
    where
      u : State W D
      u = record s { world = rs.runtime.tick s.world }

      t : State W D
      t = record u { exec = enter to (rs.runtime.now u.world) s.exec }

      moved : Good v Holds u
      moved = (now-Keeps k.world).apply s g

  -- The part of `transitionStep` after the step is written.
  step_saved-Good :
      (ctx : Context) (i : ℕ) (y : StepExecution D) (to : StepStatus) (s : State W D)
      → get_elem? s.exec.steps i ≡ some y
      → y.status ≡ to
      → Good v Holds s
      → Good v Holds
          ((save rs ctx >>= λ e.
              unless_error e (get_step i >>= λ z. notify_step rs ctx z to >> pure none))
            s).1
  step_saved-Good ctx i y to s found e g =
      saved-Good s (save rs ctx s) (get_step i >>= λ z. notify_step rs ctx z to >> pure none)
        (save-Written k ctx s g)
        (λ t same g'.
          let here : get_elem? t.exec.steps i ≡ some y =
            ap (λ (x : Execution D). get_elem? x.steps i) same ∙ found in
          subst
            (λ (r : Outcome (StepExecution D) × State W D).
              Good v Holds
                (after {B = Option Error} r (λ z. notify_step rs ctx z to >> pure none)).1)
            (sym (get_step_lem i y t here))
            (noticed-Good (notify_step rs ctx y to) t
              ((notify_step-Keeps k t.exec ctx i y to here e).apply t g')))

  transition_step-Good :
      (ctx : Context) (i : ℕ) (to : StepStatus) (s : State W D)
      → Good v Holds s
      → Good v Holds (transition_step rs ctx i to s).1
  unfolding transition_step step_transition
  transition_step-Good ctx i to s g = get_step-Good k i _ s g λ x found.
      elim (Bool-cases (can_transition_step_status x.status to)) [
        | inl p ↦ rw p (
            step_saved-Good ctx i (y x) to (t x) (get_elem?-set_self s.exec.steps i (y x) found)
              (enter_step_lem to at x)
              (put_step-Good k i x (y x) u found (enter_step-name to at x)
                ((now-Keeps k.world).apply s g)))
        | inr p ↦ rw p ((now-Keeps k.world).apply s g)
      ]
    where
      u : State W D
      u = record s { world = rs.runtime.tick s.world }

      at : ℕ
      at = rs.runtime.now u.world

      y : StepExecution D → StepExecution D
      y x = enter_step to at x

      t : StepExecution D → State W D
      t x = record u { exec = record u.exec { steps = set s.exec.steps i (y x) } }

  pub transition_exec-Keeps :
      (ctx : Context) (to : Status) → Keeps v Holds (transition_exec rs ctx to)
  transition_exec-Keeps ctx to = record { apply = transition_exec-Good ctx to }

  pub transition_step-Keeps :
      (ctx : Context) (i : ℕ) (to : StepStatus) → Keeps v Holds (transition_step rs ctx i to)
  transition_step-Keeps ctx i to = record { apply = transition_step-Good ctx i to }
