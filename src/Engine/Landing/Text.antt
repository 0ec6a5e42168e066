-- ===== src/Engine/Landing/Text.antt =====
-- What compensate of execute.go leaves as it is: the text of the error that the execution stores.
use go_orchestrator.Prelude.{
  ℕ, zero, suc, ◌≡◌, refl, ◌∙◌, Bool, true, false, ◌||◌, Option, none, some, arith, if◌then◌else◌,
}
use go_orchestrator.Status.{StepStatus}
use go_orchestrator.Errors.{Error}
use go_orchestrator.Context.{Context}
use go_orchestrator.Execution.{StepExecution, step_transition}
use go_orchestrator.Definition.{CompensateFunc}
use go_orchestrator.Engine.Monad.{
  M, Run, State, Outcome, ok, panic, after, unless_error, ◌>>=◌, ◌>>◌, pure, get_step,
}
use go_orchestrator.Engine.Notify.{notify_step, publish_and_log, start_span, end_span}
use go_orchestrator.Engine.Persist.{lease, write, save, transition_step, accept_step}
use go_orchestrator.Engine.Compensate.{
  has_status, get_definition, invoke_compensate, settle, undo, begin_undo, undo_with,
  compensate_step, compensate_loop,
}
use go_orchestrator.Engine.Rollback.Picks.{get_step-any}

module _ {W D : Type 0} where
  -- The text is as it was, whether the function returns or panics.
  abbrev Silent : {A : Type 0} → State W D → Outcome A × State W D → Type 0
  Silent s r = r.1.exec.error ≡ s.exec.error

  after-Silent :
      {A B : Type 0} (s : State W D) (r : Outcome A × State W D) (f : A → M W D B)
      → Silent s r
      → ((a : A) (t : State W D) → Silent t (f a t))
      → Silent s (after r f)
  after-Silent s (ok a, t) f h g = g a t ∙ h
  after-Silent s (panic p, t) f h g = h

  try-Silent :
      (s : State W D) (r : Outcome (Option Error) × State W D) (rest : M W D (Option Error))
      → Silent s r
      → ((t : State W D) → Silent t (rest t))
      → Silent s (after r (λ e. unless_error e rest))
  try-Silent s (ok none, t) rest h g = g t ∙ h
  try-Silent s (ok (some e), t) rest h g = h
  try-Silent s (panic p, t) rest h g = h

  save-Silent : (rs : Run W D) (ctx : Context) (s : State W D) → Silent s (save rs ctx s)
  unfolding save lease write
  save-Silent rs ctx s = ground arith

  notify_step-Silent :
      (rs : Run W D) (ctx : Context) (x : StepExecution D) (to : StepStatus) (s : State W D)
      → Silent s (notify_step rs ctx x to s)
  unfolding notify_step publish_and_log
  notify_step-Silent rs ctx x to s = ground arith

  accept_step-Silent :
      (i : ℕ) (r : StepExecution D × Option Error) (s : State W D) → Silent s (accept_step i r s)
  accept_step-Silent i (y, none) s = refl
  accept_step-Silent i (y, some z) s = refl

  transition_step-Silent :
      (rs : Run W D) (ctx : Context) (i : ℕ) (to : StepStatus) (s : State W D)
      → Silent s (transition_step rs ctx i to s)
  unfolding transition_step
  transition_step-Silent rs ctx i to s = get_step-any (Silent s) i _ s refl (λ x found.
      let s' : State W D = record s { world = rs.runtime.tick s.world } in
      let r = step_transition x to (rs.runtime.now (rs.runtime.tick s.world)) in
      after-Silent s (accept_step i r s') (λ _. save rs ctx >>= λ e. unless_error e told)
        (accept_step-Silent i r s')
        (λ _ t. try-Silent t (save rs ctx t) told (save-Silent rs ctx t) told-Silent))
    where
      told : M W D (Option Error)
      told = get_step i >>= λ y. notify_step rs ctx y to >> pure none

      told-Silent : (t : State W D) → Silent t (told t)
      told-Silent t = get_step-any (Silent t) i _ t refl (λ y found.
          after-Silent t (notify_step rs ctx y to t) (λ _. pure none)
            (notify_step-Silent rs ctx y to t) (λ _ u. refl))

module _ {W D : Type 0} (rs : Run W D) where
  settle-Silent :
      (ctx : Context) (i : ℕ) (c : Option Error) (s : State W D) → Silent s (settle rs ctx i c s)
  unfolding settle
  settle-Silent ctx i none s = transition_step-Silent rs ctx i StepStatus.compensated s
  settle-Silent ctx i (some c) s =
      get_step-any (Silent s) i _ s refl
        (λ x found. transition_step-Silent rs ctx i StepStatus.compensation_failed _)

  invoke_compensate-Silent :
      (ctx : Context) (x : StepExecution D) (f : CompensateFunc W D) (s : State W D)
      → Silent s (invoke_compensate rs ctx x f s)
  unfolding invoke_compensate start_span end_span
  invoke_compensate-Silent ctx x f s = ground arith

  undo-Silent :
      (ctx : Context) (i : ℕ) (f : CompensateFunc W D) (s : State W D)
      → Silent s (undo rs ctx i f s)
  unfolding undo
  undo-Silent ctx i f s = get_step-any (Silent s) i _ s refl (λ x found.
      after-Silent s (invoke_compensate rs ctx x f s) (settle rs ctx i)
        (invoke_compensate-Silent ctx x f s) (settle-Silent ctx i))

  begin_undo-Silent :
      (ctx : Context) (i : ℕ) (st : StepStatus) (s : State W D)
      → Silent s (begin_undo rs ctx i st s)
  unfolding begin_undo
  begin_undo-Silent ctx i StepStatus.succeeded s =
      transition_step-Silent rs ctx i StepStatus.compensating s
  begin_undo-Silent ctx i StepStatus.pending s = refl
  begin_undo-Silent ctx i StepStatus.running s = refl
  begin_undo-Silent ctx i StepStatus.failed s = refl
  begin_undo-Silent ctx i StepStatus.compensating s = refl
  begin_undo-Silent ctx i StepStatus.compensated s = refl
  begin_undo-Silent ctx i StepStatus.compensation_failed s = refl

  undo_with-Silent :
      (ctx : Context) (i : ℕ) (x : StepExecution D) (f : Option (CompensateFunc W D))
      (s : State W D)
      → Silent s (undo_with rs ctx i x f s)
  unfolding undo_with
  undo_with-Silent ctx i x none s = refl
  undo_with-Silent ctx i x (some f) s =
      let t : State W D = record s { exec = record s.exec { current_step = x.name } } in
      try-Silent s (begin_undo rs ctx i x.status t) (undo rs ctx i f)
        (begin_undo-Silent ctx i x.status t) (undo-Silent ctx i f)

  get_definition-Silent : (i : ℕ) (s : State W D) → Silent s (get_definition rs i s)
  get_definition-Silent i s = ground arith

  compensate_step-Silent :
      (ctx : Context) (i : ℕ) (x : StepExecution D) (s : State W D)
      → Silent s (compensate_step rs ctx i x s)
  unfolding compensate_step
  compensate_step-Silent ctx i x s =
      by (has_status StepStatus.succeeded x || has_status StepStatus.compensating x)
    where
      undone_with : M W D (Option Error)
      undone_with = get_definition rs i >>= λ step. undo_with rs ctx i x step.compensate

      by : (b : Bool) → Silent s ((if b then undone_with else pure none) s)
      by true =
          after-Silent s (get_definition rs i s) (λ step. undo_with rs ctx i x step.compensate)
            (get_definition-Silent i s) (λ step t. undo_with-Silent ctx i x step.compensate t)
      by false = refl

  pub compensate_loop-Silent :
      (i : ℕ) (ctx : Context) (s : State W D)
      → (compensate_loop i rs ctx s).1.exec.error ≡ s.exec.error
  unfolding compensate_loop
  compensate_loop-Silent zero ctx s = refl
  compensate_loop-Silent (suc i) ctx s = get_step-any (Silent s) i _ s refl (λ x found.
      try-Silent s (compensate_step rs ctx i x s) (compensate_loop i rs ctx)
        (compensate_step-Silent ctx i x s) (λ t. compensate_loop-Silent i ctx t))
