-- ===== src/Engine/Kept/Abort.antt =====
-- What abort and resumeCompensating of execute.go keep.
use go_orchestrator.Prelude.{ℕ, refl, Bool, true, false, Option, none, some, take}
use go_orchestrator.Status.{Status}
use go_orchestrator.Errors.{Error, message, compensation_failed, error_text}
use go_orchestrator.Context.{Context, without_cancel}
use go_orchestrator.Engine.Monad.{Run, State, ◌>>=◌, pure, put_exec, unless_error}
use go_orchestrator.Engine.Persist.{transition_exec}
use go_orchestrator.Engine.Compensate.{
  any_succeeded, find_failed_at, verdict, compensate_loop, compensate, conclude,
  finish_compensating, abort_with, abort, resume_compensating,
}
use go_orchestrator.Engine.Kept.{Identity, IsKept, Keeps, pure-Keeps, bind-Keeps, try-Keeps}
use go_orchestrator.Engine.Kept.Persist.{put_exec-Keeps}
use go_orchestrator.Engine.Kept.Transitions.{transition_exec-Keeps}
use go_orchestrator.Engine.Kept.Undo.{get_exec-Keeps, current-Keeps, compensate_loop-Keeps}

module _ {W D : Type 0} {rs : Run W D} {v : Identity D} {Same : W → W → Type 0}
    {Holds : State W D → Type 0} (k : IsKept rs v Same Holds) where
  compensate-Keeps : (ctx : Context) (i : ℕ) → Keeps v Holds (compensate rs ctx i)
  unfolding compensate
  compensate-Keeps ctx i =
      bind-Keeps v Holds (compensate_loop i rs ctx) _ (compensate_loop-Keeps k i ctx) (λ e.
        get_exec-Keeps k (λ exec. pure (verdict i exec e))
          (λ x. pure-Keeps v Holds (verdict i x e)))

  -- A last transition, and then an error.
  last-Keeps :
      (ctx : Context) (to : Status) (e : Error)
      → Keeps v Holds (transition_exec rs ctx to >>= λ o. unless_error o (pure (some e)))
  last-Keeps ctx to e =
      try-Keeps v Holds (transition_exec rs ctx to) (pure (some e)) (transition_exec-Keeps k ctx to)
        (pure-Keeps v Holds (some e))

  conclude-Keeps :
      (ctx : Context) (original : Error) (r : Bool × Option Error)
      → Keeps v Holds (conclude rs ctx original r)
  unfolding conclude
  conclude-Keeps ctx original (ok, some e) = pure-Keeps v Holds (some e)
  conclude-Keeps ctx original (true, none) = last-Keeps ctx Status.compensated original
  conclude-Keeps ctx original (false, none) =
      last-Keeps ctx Status.compensation_failed (compensation_failed original)

  finish_compensating-Keeps :
      (ctx : Context) (i : ℕ) (original : Error)
      → Keeps v Holds (finish_compensating rs ctx i original)
  unfolding finish_compensating
  finish_compensating-Keeps ctx i original =
      bind-Keeps v Holds (compensate rs (without_cancel ctx) i) _
        (compensate-Keeps (without_cancel ctx) i)
        λ r.
          bind-Keeps v Holds (put_exec (λ exec. record exec { current_step = "" })) _
            (current-Keeps k "") (λ _. conclude-Keeps ctx original r)

  abort_with-Keeps :
      (ctx : Context) (i : ℕ) (original : Error) (b : Bool)
      → Keeps v Holds (abort_with rs ctx i original b)
  unfolding abort_with
  abort_with-Keeps ctx i original false = last-Keeps ctx Status.failed original
  abort_with-Keeps ctx i original true =
      try-Keeps v Holds (transition_exec rs ctx Status.compensating) _
        (transition_exec-Keeps k ctx Status.compensating) (finish_compensating-Keeps ctx i original)

  pub abort-Keeps :
      (ctx : Context) (i : ℕ) (original : Error) → Keeps v Holds (abort rs ctx i original)
  unfolding abort
  abort-Keeps ctx i original =
      bind-Keeps v Holds
        (put_exec (λ exec. record exec { error = error_text rs.runtime.format original })) _
        (put_exec-Keeps k (λ exec. record exec { error = error_text rs.runtime.format original })
          (λ _. (refl, refl)))
        (λ _.
          get_exec-Keeps k _
            (λ x. abort_with-Keeps ctx i original (any_succeeded (take i x.steps))))

  pub resume_compensating-Keeps : (ctx : Context) → Keeps v Holds (resume_compensating rs ctx)
  unfolding resume_compensating
  resume_compensating-Keeps ctx =
      get_exec-Keeps k _
        (λ x. finish_compensating-Keeps ctx (find_failed_at 0 0 x.steps) (message x.error))
