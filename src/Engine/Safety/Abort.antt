-- ===== src/Engine/Safety/Abort.antt =====
-- The safety of abort of execute.go.
use go_orchestrator.Prelude.{ℕ, ◌≡◌, refl, ap, inr, Bool, true, false, arith, length, take}
use go_orchestrator.Status.{Status, can_transition_status}
use go_orchestrator.Errors.{Error, error_text}
use go_orchestrator.Context.{Context}
use go_orchestrator.Engine.Monad.{Run}
use go_orchestrator.Engine.Persist.{transition_exec}
use go_orchestrator.Engine.Compensate.{any_succeeded, abort, abort_with, finish_compensating}
use go_orchestrator.Engine.Shapes.{Shape, IsSound, Backward, Barren}
use go_orchestrator.Engine.Logic.{Meets, try-Meets, end-Meets, Ended}
use go_orchestrator.Engine.Safety.Persist.{transition_exec-Meets}
use go_orchestrator.Engine.Safety.Compensate.{finish_compensating-Meets}
use go_orchestrator.Engine.Safety.Stops.{
  Stopped, Stopped-Forward, Stopped-lt, Stopped-Barren, Forward-Backward,
}

module _ {W D : Type 0} (rs : Run W D) (ctx : Context) (n : ℕ)
    (sized : length rs.definition.steps ≡ n) where
  abort_with-Meets :
      (i : ℕ) (original : Error) (v : Shape) (b : Bool)
      → v.0 ≡ Status.running
      → length v.1 ≡ n
      → Stopped i v.1
      → (b ≡ false → Barren v.1)
      → Meets n v (abort_with rs ctx i original b) (Ended n)
  unfolding abort_with can_transition_status
  abort_with-Meets i original v false running len stop barren =
      end-Meets n v (Status.failed, v.1) (transition_exec rs ctx Status.failed) original refl
        (λ e. cc) sound (transition_exec-Meets rs ctx Status.failed n v (rw running) sound)
    where
      sound : IsSound n (Status.failed, v.1)
      sound = record { sized = len; fits = barren refl }
  abort_with-Meets i original v true running len stop barren =
      try-Meets n v w (transition_exec rs ctx Status.compensating)
        (finish_compensating rs ctx i original) (Ended n) (λ e s b. inr b)
        (transition_exec-Meets rs ctx Status.compensating n v (rw running)
          (record { sized = len; fits = back }))
        (finish_compensating-Meets rs ctx n i original w
          (record { undoing = refl; sized = len; backward = back }) sized
          (omega (arith, Stopped-lt i v.1 stop)))
    where
      w : Shape
      w = (Status.compensating, v.1)

      back : Backward v.1
      back = Forward-Backward v.1 (Stopped-Forward i v.1 stop)

  pub abort-Meets :
      (i : ℕ) (original : Error) (v : Shape)
      → v.0 ≡ Status.running
      → length v.1 ≡ n
      → Stopped i v.1
      → Meets n v (abort rs ctx i original) (Ended n)
  unfolding abort
  abort-Meets i original v running len stop = record {
    apply = λ s e safe.
        (abort_with-Meets i original v (any_succeeded (take i s.exec.steps)) running len stop (λ b.
            rw (ap (λ (u : Shape). u.1) e) at
              (Stopped-Barren i s.exec.steps (rw (ap (λ (u : Shape). u.1) e) stop) b))).apply
          (record s { exec = record s.exec { error = error_text rs.runtime.format original } }) e
          safe;
  }
