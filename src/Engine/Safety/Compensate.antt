-- ===== src/Engine/Safety/Compensate.antt =====
-- The safety of compensate, finishCompensating and resumeCompensating of execute.go: they end in a
-- terminal status, unless a save or the lease fails.
use go_orchestrator.Prelude.{
  ℕ, suc, ◌+◌, ◌≤◌, ◌≡◌, refl, ap, inr, Bool, true, false, Option, none, some, List, [], ◌∷◌, All,
  arith, length, if◌then◌else◌,
}
use go_orchestrator.Status.{Status, can_transition_status}
use go_orchestrator.Errors.{Error, compensation_failed, message}
use go_orchestrator.Context.{Context, without_cancel}
use go_orchestrator.Execution.{StepExecution}
use go_orchestrator.Engine.Monad.{Run, State}
use go_orchestrator.Engine.Persist.{transition_exec}
use go_orchestrator.Engine.Compensate.{
  ran, compensate_loop, compensate, verdict, conclude, finish_compensating, resume_compensating,
  find_failed_at,
}
use go_orchestrator.Engine.Shapes.{Shape, shape, length-statuses}
use go_orchestrator.Engine.Logic.{Ensures, after-Ensures, IsSafe, IsBroken, Meets, end-Meets, Ended}
use go_orchestrator.Engine.Safety.Persist.{transition_exec-Meets}
use go_orchestrator.Engine.Safety.Undo.{IsUndoing, Undone, compensate_loop-Meets}

module _ {W D : Type 0} (rs : Run W D) (ctx : Context) (n : ℕ) where
  -- `compensate` has an execution that is still compensating, or the error of a broken call.
  abbrev Compensated : Bool × Option Error → State W D → Type 0
  Compensated (b, none) s = IsUndoing n (shape s.exec)
  Compensated (b, some e) s = IsBroken e s.calls

  compensate-Meets :
      (failed_at : ℕ) (v : Shape)
      → IsUndoing n v
      → length rs.definition.steps ≡ n
      → failed_at ≤ n
      → Meets n v (compensate rs ctx failed_at) Compensated
  unfolding compensate
  compensate-Meets failed_at v u sized h = record {
    apply = λ s e safe.
        after-Ensures _ _ (compensate_loop failed_at rs ctx s) _
          ((compensate_loop-Meets rs ctx n failed_at v u sized h).apply s e safe) results;
  }
    where
      results :
          (e : Option Error) (t : State W D)
          → All (IsSafe n) t.calls × Undone rs ctx n e t
          → All (IsSafe n) t.calls × Compensated (verdict failed_at t.exec e) t
      results none t q = q
      results (some e) t q = q

  -- What `finishCompensating` makes of the execution, by `compensate`'s results.
  conclude-Meets :
      (v : Shape) (original : Error) (all_well : Bool)
      → IsUndoing n v
      → Meets n v (conclude rs ctx original (all_well, none)) (Ended n)
  unfolding conclude can_transition_status
  conclude-Meets v original true u =
      end-Meets n v (Status.compensated, v.1) (transition_exec rs ctx Status.compensated) original
        refl (λ e. cc) (record { sized = u.sized; fits = u.backward })
        (transition_exec-Meets rs ctx Status.compensated n v (rw u.undoing)
          (record { sized = u.sized; fits = u.backward }))
  conclude-Meets v original false u =
      end-Meets n v (Status.compensation_failed, v.1)
        (transition_exec rs ctx Status.compensation_failed) (compensation_failed original) refl
        (λ e. cc) (record { sized = u.sized; fits = u.backward })
        (transition_exec-Meets rs ctx Status.compensation_failed n v (rw u.undoing)
          (record { sized = u.sized; fits = u.backward }))

module _ {W D : Type 0} (rs : Run W D) (ctx : Context) (n : ℕ) where
  -- `compensate` and what follows it, from an execution that is compensating.
  pub finish_compensating-Meets :
      (failed_at : ℕ) (original : Error) (v : Shape)
      → IsUndoing n v
      → length rs.definition.steps ≡ n
      → failed_at ≤ n
      → Meets n v (finish_compensating rs ctx failed_at original) (Ended n)
  unfolding finish_compensating conclude
  finish_compensating-Meets failed_at original v u sized h = record {
    apply = λ s e safe.
        after-Ensures _ _ (compensate rs (without_cancel ctx) failed_at s) _
          ((compensate-Meets rs (without_cancel ctx) n failed_at v u sized h).apply s e safe) rest;
  }
    where
      rest :
          (r : Bool × Option Error) (t : State W D)
          → All (IsSafe n) t.calls × Compensated rs ctx n r t
          → Ensures
              (λ a w. All (IsSafe n) w.calls × Ended n a w)
              (conclude rs ctx original r (record t { exec = record t.exec { current_step = "" } }))
      rest (b, some e) t q = (q.0, inr q.1)
      rest (b, none) t q =
          (conclude-Meets rs ctx n (shape t.exec) original b q.1).apply
            (record t { exec = record t.exec { current_step = "" } }) refl q.0

  find_failed_at-le :
      (i k : ℕ) (l : List (StepExecution D))
      → k ≤ i + length l
      → find_failed_at i k l ≤ i + length l
  find_failed_at-le i k [] h = h
  find_failed_at-le i k (s ∷ l) h =
      omega (arith, find_failed_at-le (suc i) (if ran s.status then suc i else k) l (ground arith))

  -- `resumeCompensating` ends, from any execution that is compensating.
  pub resume_compensating-Meets :
      (v : Shape)
      → IsUndoing n v
      → length rs.definition.steps ≡ n
      → Meets n v (resume_compensating rs ctx) (Ended n)
  unfolding resume_compensating
  resume_compensating-Meets v u sized = record {
    apply = λ s e safe.
        (finish_compensating-Meets (find_failed_at 0 0 s.exec.steps) (message s.exec.error) v u
            sized
            (omega (
              arith,
              find_failed_at-le 0 0 s.exec.steps,
              length-statuses s.exec.steps,
              ap (λ (x : Shape). length x.1) e,
              u.sized,
            ))).apply
          s e safe;
  }
