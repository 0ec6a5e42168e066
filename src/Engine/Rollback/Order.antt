-- ===== src/Engine/Rollback/Order.antt =====
-- The order in which compensate of execute.go runs the compensations.
use go_orchestrator.Prelude.{
  some_inj, ℕ, zero, suc, String, ◌≡◌, refl, sym, ap, subst, ◌∙◌, inl, inr, Option, none, some,
  List, [], ◌∷◌, arith, get_elem?, set, Option-cases,
}
use go_orchestrator.Status.{StepStatus}
use go_orchestrator.Errors.{Error, error_text}
use go_orchestrator.Context.{Context}
use go_orchestrator.Execution.{StepExecution, step_transition}
use go_orchestrator.Engine.Monad.{
  M, Run, State, Outcome, ok, panic, Call, undone, after, unless_error, ◌>>=◌, ◌>>◌, pure, get_step,
  put_step, now, index_out_of_range,
}
use go_orchestrator.Engine.Notify.{notify_step, publish_and_log}
use go_orchestrator.Engine.Persist.{lease, write, save, transition_step, accept_step}
use go_orchestrator.Engine.Compensate.{settle, begin_undo}
use go_orchestrator.Engine.Safety.Persist.{get_step_lem}

-- The names of the steps whose compensations were called, the newest first.
abbrev pub undone_names : {D : Type 0} → List (Call D) → List String
undone_names [] = []
undone_names (undone name ctx x e ∷ calls) = name ∷ undone_names calls
undone_names (_ ∷ calls) = undone_names calls

module _ {D : Type 0} where
  abbrev pub names : List (StepExecution D) → List String
  names [] = []
  names (x ∷ l) = x.name ∷ names l

  pub names-set :
      (l : List (StepExecution D)) (i : ℕ) (x y : StepExecution D)
      → get_elem? l i ≡ some x
      → y.name ≡ x.name
      → names (set l i y) ≡ names l
  names-set [] i x y found e = refl
  names-set (z ∷ l) zero x y found e =
      ap (λ n. n ∷ names l) (e ∙ ap (λ (x : StepExecution D). x.name) (some_inj (sym found)))
  names-set (z ∷ l) (suc i) x y found e = ap (λ k. z.name ∷ k) (names-set l i x y found e)

  step_transition-name :
      (x : StepExecution D) (to : StepStatus) (at : ℕ) → (step_transition x to at).0.name ≡ x.name
  unfolding step_transition
  step_transition-name x to at = ground arith

module _ {W D : Type 0} where
  -- What the theorem on the order looks at.
  abbrev pub seen : State W D → List String × List String
  seen s = (undone_names s.calls, names s.exec.steps)

  -- No compensation is called, and no step's name is changed.
  abbrev pub Mute : {A : Type 0} → State W D → Outcome A × State W D → Type 0
  Mute s r = seen r.1 ≡ seen s

  after-Mute :
      {A B : Type 0} (s : State W D) (r : Outcome A × State W D) (f : A → M W D B)
      → Mute s r
      → ((a : A) (t : State W D) → Mute t (f a t))
      → Mute s (after r f)
  after-Mute s (ok a, t) f h g = g a t ∙ h
  after-Mute s (panic p, t) f h g = h

  save-Mute : (rs : Run W D) (ctx : Context) (s : State W D) → Mute s (save rs ctx s)
  unfolding save lease write
  save-Mute rs ctx s = ground arith

  notify_step-Mute :
      (rs : Run W D) (ctx : Context) (x : StepExecution D) (to : StepStatus) (s : State W D)
      → Mute s (notify_step rs ctx x to s)
  unfolding notify_step publish_and_log
  notify_step-Mute rs ctx x to s = ground arith

  pub no_step :
      (i : ℕ) (s : State W D)
      → get_elem? s.exec.steps i ≡ none
      → get_step i s ≡ (panic index_out_of_range, s)
  no_step i s h = ground arith

  get_step-Mute :
      {A : Type 0} (i : ℕ) (f : StepExecution D → M W D A) (s : State W D)
      → ((x : StepExecution D) → get_elem? s.exec.steps i ≡ some x → Mute s (f x s))
      → Mute s ((get_step i >>= f) s)
  get_step-Mute i f s h = elim (Option-cases (get_elem? s.exec.steps i)) [
    | inl e ↦
        subst (λ (r : Outcome (StepExecution D) × State W D). Mute s (after r f))
          (sym (no_step i s e)) refl
    | inr (x, e) ↦
        subst (λ (r : Outcome (StepExecution D) × State W D). Mute s (after r f))
          (sym (get_step_lem i x s e)) (h x e)
  ]

  accept_step-Mute :
      (i : ℕ) (x : StepExecution D) (r : StepExecution D × Option Error) (s : State W D)
      → get_elem? s.exec.steps i ≡ some x
      → r.0.name ≡ x.name
      → Mute s (accept_step i r s)
  accept_step-Mute i x (y, none) s found e =
      ap (λ n. (undone_names s.calls, n)) (names-set s.exec.steps i x y found e)
  accept_step-Mute i x (y, some z) s found e = refl

  transition_step-Mute :
      (rs : Run W D) (ctx : Context) (i : ℕ) (to : StepStatus) (s : State W D)
      → Mute s (transition_step rs ctx i to s)
  unfolding transition_step
  transition_step-Mute rs ctx i to s =
      get_step-Mute i
        (λ x. now rs.runtime >>= λ at. accept_step i (step_transition x to at) >>= saved) s
        (λ x found.
          let at = rs.runtime.now (rs.runtime.tick s.world) in
          let s' : State W D = record s { world = rs.runtime.tick s.world } in
          after-Mute s' (accept_step i (step_transition x to at) s') saved
            (accept_step-Mute i x (step_transition x to at) s' found (step_transition-name x to at))
            (λ a v. after-Mute v (save rs ctx v) told (save-Mute rs ctx v) told-Mute))
    where
      told : Option Error → M W D (Option Error)
      told e = unless_error e (do y ← get_step i; notify_step rs ctx y to; pure none)

      saved : Unit {0} → M W D (Option Error)
      saved a = save rs ctx >>= told

      told-Mute : (e : Option Error) (t : State W D) → Mute t (told e t)
      told-Mute (some e) t = refl
      told-Mute none t =
          get_step-Mute i (λ y. notify_step rs ctx y to >>= λ a. pure none) t
            (λ y e.
              after-Mute t (notify_step rs ctx y to t) (λ a. pure none)
                (notify_step-Mute rs ctx y to t) (λ a v. refl))

  pub settle-Mute :
      (rs : Run W D) (ctx : Context) (i : ℕ) (c : Option Error) (s : State W D)
      → Mute s (settle rs ctx i c s)
  unfolding settle
  settle-Mute rs ctx i none s = transition_step-Mute rs ctx i StepStatus.compensated s
  settle-Mute rs ctx i (some c) s = get_step-Mute i marked s (λ x found.
      let y : StepExecution D = record x { error = error_text rs.runtime.format c } in
      transition_step-Mute rs ctx i StepStatus.compensation_failed
        (record s { exec = record s.exec { steps = set s.exec.steps i y } })
      ∙ ap (λ n. (undone_names s.calls, n)) (names-set s.exec.steps i x y found refl))
    where
      marked : StepExecution D → M W D (Option Error)
      marked x = put_step i (record x { error = error_text rs.runtime.format c }) >>= λ a.
          transition_step rs ctx i StepStatus.compensation_failed

  pub begin_undo-Mute :
      (rs : Run W D) (ctx : Context) (i : ℕ) (st : StepStatus) (s : State W D)
      → Mute s (begin_undo rs ctx i st s)
  unfolding begin_undo
  begin_undo-Mute rs ctx i StepStatus.succeeded s =
      transition_step-Mute rs ctx i StepStatus.compensating s
  begin_undo-Mute rs ctx i StepStatus.pending s = refl
  begin_undo-Mute rs ctx i StepStatus.running s = refl
  begin_undo-Mute rs ctx i StepStatus.failed s = refl
  begin_undo-Mute rs ctx i StepStatus.compensating s = refl
  begin_undo-Mute rs ctx i StepStatus.compensated s = refl
  begin_undo-Mute rs ctx i StepStatus.compensation_failed s = refl
