-- ===== src/Engine/Landing/Undo.antt =====
-- What compensate, abort and resumeCompensating of execute.go have saved when they return.
use go_orchestrator.Prelude.{
  ℕ, zero, suc, ◌≡◌, refl, ap, ◌∙◌, inr, Bool, true, false, ◌||◌, Option, none, some, take,
  if◌then◌else◌,
}
use go_orchestrator.Status.{Status, StepStatus}
use go_orchestrator.Errors.{Error, message, compensation_failed, error_text}
use go_orchestrator.Context.{Context, without_cancel}
use go_orchestrator.Execution.{Execution, StepExecution}
use go_orchestrator.Definition.{CompensateFunc}
use go_orchestrator.Engine.Monad.{
  M, Run, State, Outcome, ok, panic, after, ◌>>=◌, ◌>>◌, pure, put_exec,
}
use go_orchestrator.Engine.Persist.{transition_exec}
use go_orchestrator.Engine.Compensate.{
  has_status, any_succeeded, find_failed_at, verdict, get_definition, invoke_compensate, settle,
  undo, begin_undo, undo_with, compensate_step, compensate_loop, compensate, conclude,
  finish_compensating, abort_with, abort, resume_compensating,
}
use go_orchestrator.Engine.Rollback.Picks.{get_step-any}
use go_orchestrator.Engine.Landing.{
  Breaks, Lands, GivesUp, entered, after-Breaks, try-Breaks, last-Lands, transition_exec-Writes,
  transition_step-Breaks, entered-Lands,
}
use go_orchestrator.Engine.Landing.Text.{compensate_loop-Silent}

module _ {W D : Type 0} (rs : Run W D) where
  settle-Breaks :
      (ctx : Context) (i : ℕ) (e : Option Error) (s : State W D) → Breaks (settle rs ctx i e s)
  unfolding settle
  settle-Breaks ctx i none s = transition_step-Breaks rs ctx i StepStatus.compensated s
  settle-Breaks ctx i (some c) s =
      get_step-any Breaks i _ s tt
        (λ x found. transition_step-Breaks rs ctx i StepStatus.compensation_failed _)

  undo-Breaks :
      (ctx : Context) (i : ℕ) (f : CompensateFunc W D) (s : State W D) → Breaks (undo rs ctx i f s)
  unfolding undo
  undo-Breaks ctx i f s = get_step-any Breaks i _ s tt (λ x found.
      after-Breaks (invoke_compensate rs ctx x f s) (settle rs ctx i)
        (λ e t. settle-Breaks ctx i e t))

  begin_undo-Breaks :
      (ctx : Context) (i : ℕ) (st : StepStatus) (s : State W D) → Breaks (begin_undo rs ctx i st s)
  unfolding begin_undo
  begin_undo-Breaks ctx i StepStatus.succeeded s =
      transition_step-Breaks rs ctx i StepStatus.compensating s
  begin_undo-Breaks ctx i StepStatus.pending s = tt
  begin_undo-Breaks ctx i StepStatus.running s = tt
  begin_undo-Breaks ctx i StepStatus.failed s = tt
  begin_undo-Breaks ctx i StepStatus.compensating s = tt
  begin_undo-Breaks ctx i StepStatus.compensated s = tt
  begin_undo-Breaks ctx i StepStatus.compensation_failed s = tt

  undo_with-Breaks :
      (ctx : Context) (i : ℕ) (x : StepExecution D) (f : Option (CompensateFunc W D))
      (s : State W D)
      → Breaks (undo_with rs ctx i x f s)
  unfolding undo_with
  undo_with-Breaks ctx i x none s = tt
  undo_with-Breaks ctx i x (some f) s =
      let t : State W D = record s { exec = record s.exec { current_step = x.name } } in
      try-Breaks (begin_undo rs ctx i x.status t) (undo rs ctx i f)
        (begin_undo-Breaks ctx i x.status t) (undo-Breaks ctx i f)

  compensate_step-Breaks :
      (ctx : Context) (i : ℕ) (x : StepExecution D) (s : State W D)
      → Breaks (compensate_step rs ctx i x s)
  unfolding compensate_step
  compensate_step-Breaks ctx i x s =
      by (has_status StepStatus.succeeded x || has_status StepStatus.compensating x)
    where
      undone_with : M W D (Option Error)
      undone_with = get_definition rs i >>= λ step. undo_with rs ctx i x step.compensate

      by : (b : Bool) → Breaks ((if b then undone_with else pure none) s)
      by true =
          after-Breaks (get_definition rs i s) (λ step. undo_with rs ctx i x step.compensate)
            (λ step t. undo_with-Breaks ctx i x step.compensate t)
      by false = tt

  compensate_loop-Breaks :
      (i : ℕ) (ctx : Context) (s : State W D) → Breaks (compensate_loop i rs ctx s)
  unfolding compensate_loop
  compensate_loop-Breaks zero ctx s = tt
  compensate_loop-Breaks (suc i) ctx s = get_step-any Breaks i _ s tt (λ x found.
      try-Breaks (compensate_step rs ctx i x s) (compensate_loop i rs ctx)
        (compensate_step-Breaks ctx i x s) (λ t. compensate_loop-Breaks i ctx t))

  -- The two ways in which `compensate` has come to an end.
  conclude-Lands :
      (ctx : Context) (original : Error) (r : Bool × Option Error) (s : State W D)
      → s.exec.error ≡ error_text rs.runtime.format original
      → Breaks (ok r.1, s)
      → Lands (GivesUp rs.runtime.format original) (conclude rs ctx original r s)
  unfolding conclude
  conclude-Lands ctx original (b, some e) s t h = inr h
  conclude-Lands ctx original (true, none) s t h =
      last-Lands (GivesUp rs.runtime.format original) (entered rs Status.compensated s)
        (transition_exec rs ctx Status.compensated s) original
        (transition_exec-Writes rs ctx Status.compensated s) (refl, t)
  conclude-Lands ctx original (false, none) s t h =
      last-Lands (GivesUp rs.runtime.format original) (entered rs Status.compensation_failed s)
        (transition_exec rs ctx Status.compensation_failed s) (compensation_failed original)
        (transition_exec-Writes rs ctx Status.compensation_failed s) (refl, t)

  finish_compensating-Lands :
      (ctx : Context) (i : ℕ) (original : Error) (s : State W D)
      → s.exec.error ≡ error_text rs.runtime.format original
      → Lands (GivesUp rs.runtime.format original) (finish_compensating rs ctx i original s)
  unfolding finish_compensating compensate
  finish_compensating-Lands ctx i original s text =
      by (compensate_loop i rs (without_cancel ctx) s)
        (compensate_loop-Silent rs i (without_cancel ctx) s ∙ text)
        (compensate_loop-Breaks i (without_cancel ctx) s)
    where
      cleared : State W D → State W D
      cleared t = record t { exec = record t.exec { current_step = "" } }

      by :
          (x : Outcome (Option Error) × State W D)
          → x.1.exec.error ≡ error_text rs.runtime.format original
          → Breaks x
          → Lands (GivesUp rs.runtime.format original) (
              after (after x (λ e t. (ok (verdict i t.exec e), t))) (λ r.
                put_exec (λ exec. record exec { current_step = "" }) >> conclude rs ctx original r))
      by (ok none, t) p h = conclude-Lands ctx original (verdict i t.exec none) (cleared t) p tt
      by (ok (some e), t) p h = conclude-Lands ctx original (false, some e) (cleared t) p h
      by (panic p, t) q h = tt

  pub abort-Lands :
      (ctx : Context) (i : ℕ) (original : Error) (s : State W D)
      → Lands (GivesUp rs.runtime.format original) (abort rs ctx i original s)
  unfolding abort abort_with
  abort-Lands ctx i original s = by (any_succeeded (take i s.exec.steps))
    where
      t : State W D
      t = record s { exec = record s.exec { error = error_text rs.runtime.format original } }

      by :
          (b : Bool) → Lands (GivesUp rs.runtime.format original) (abort_with rs ctx i original b t)
      by false =
          last-Lands (GivesUp rs.runtime.format original) (entered rs Status.failed t)
            (transition_exec rs ctx Status.failed t) original
            (transition_exec-Writes rs ctx Status.failed t) (refl, refl)
      by true =
          entered-Lands (GivesUp rs.runtime.format original) (entered rs Status.compensating t)
            (transition_exec rs ctx Status.compensating t) (finish_compensating rs ctx i original)
            (transition_exec-Writes rs ctx Status.compensating t)
            (λ u e.
              finish_compensating-Lands ctx i original u (ap (λ (x : Execution D). x.error) e))

  pub resume_compensating-Lands :
      (ctx : Context) (s : State W D)
      → Lands (GivesUp rs.runtime.format (message s.exec.error)) (resume_compensating rs ctx s)
  unfolding resume_compensating error_text
  resume_compensating-Lands ctx s =
      finish_compensating-Lands ctx (find_failed_at 0 0 s.exec.steps) (message s.exec.error) s refl
