-- ===== src/Engine/Fold/Execute.antt =====
-- Execute of execute.go computes the saga as a function, when nothing but a step can fail.
use Prim.Native.String.{◌++◌}
use go_orchestrator.Prelude.{
  ℕ, String, ◌≡◌, refl, sym, subst, inr, true, Option, none, some, List, [], ◌∷◌, length, map,
}
use go_orchestrator.Prelude.Int.{pos, leb_ℤ}
use go_orchestrator.Status.{Status}
use go_orchestrator.Errors.{Error}
use go_orchestrator.Context.{Context}
use go_orchestrator.Interfaces.{Runtime, Locker}
use go_orchestrator.Execution.{Execution}
use go_orchestrator.Definition.{Definition, freeze}
use go_orchestrator.Definition.Names.{HaveActions}
use go_orchestrator.Engine.Monad.{
  Run, State, Outcome, ok, panic, saved, leased, after, unless_error,
}
use go_orchestrator.Engine.Notify.{span_context, start_span, end_span}
use go_orchestrator.Engine.Persist.{transition_exec, lease, lease_error, save_error}
use go_orchestrator.Engine.Running.{find_failed, find_start, resume_running}
use go_orchestrator.Engine.Resume.{
  dispatch, run_untimed, run_timed, run_spanned, release, run_leased, run_state, resume_with,
  resume, start, initial, execute, fresh_step,
}
use go_orchestrator.Engine.Logic.{Ensures}
use go_orchestrator.Engine.Safety.Persist.{Quiet, start_span-Quiet, end_span-Quiet}
use go_orchestrator.Engine.Safety.Resume.{Quiet-state}
use go_orchestrator.Engine.Safety.Execute.{release-Quiet, EndsWell, execute_ends}
use go_orchestrator.Engine.Landing.{entered-Lands, Breaks, Lands, entered, transition_exec-Writes}
use go_orchestrator.Engine.Landing.Execute.{deferred-Lands, broken-Breaks}
use go_orchestrator.Engine.Fold.{PureStep, ArePure, IsCalm, IsOpen, evaluate}
use go_orchestrator.Engine.Fold.Attempts.{span-IsOpen}
use go_orchestrator.Engine.Fold.Forward.{Yields, none_failed, starts, resume_running-Lands}

module _ {W D : Type 0} (rs : Run W D) (calm : IsCalm rs.runtime) where
  -- The execution as `Execute` has made it.
  abbrev IsFresh : Option D → Execution D → Type 0
  IsFresh x e =
      (e.status ≡ Status.pending) × (e.input ≡ x) × (e.steps ≡ map fresh_step rs.definition.steps)

  run_timed-Lands :
      (ps : List (PureStep D)) (ctx : Context) (x : Option D) (s : State W D)
      → ArePure rs.definition.steps ps
      → leb_ℤ rs.definition.timeout (pos 0) ≡ true
      → IsOpen ctx
      → IsFresh x s.exec
      → Lands (Yields (evaluate ps x)) (run_timed rs ctx s)
  unfolding run_timed run_untimed dispatch
  run_timed-Lands ps ctx x s are untimed h f = rw untimed (
      subst (λ (st : Status). Lands (Yields (evaluate ps x)) (dispatch rs ctx none st s)) (sym f.0)
        (entered-Lands (Yields (evaluate ps x)) (entered rs Status.running s)
          (transition_exec rs ctx Status.running s) (resume_running rs ctx none)
          (transition_exec-Writes rs ctx Status.running s)
          (λ t e.
            resume_running-Lands rs calm ps ctx x t are h
              (subst (λ (y : Execution D). find_failed 0 y.steps ≡ none) (sym e)
                (rw f.2 (none_failed 0 rs.definition.steps)))
              (subst (λ (y : Execution D). find_start 0 y.input y.steps ≡ (0, x)) (sym e)
                (rw (f.1, f.2) (starts x rs.definition.steps))))))

  run_spanned-Lands :
      (ps : List (PureStep D)) (ctx : Context) (x : Option D) (s : State W D)
      → ArePure rs.definition.steps ps
      → leb_ℤ rs.definition.timeout (pos 0) ≡ true
      → IsOpen ctx
      → IsFresh x s.exec
      → Lands (Yields (evaluate ps x)) (run_spanned rs ctx s)
  unfolding run_spanned
  run_spanned-Lands ps ctx x s are untimed h f =
      deferred-Lands rs (Yields (evaluate ps x)) (end_span rs ctx name) _
        (λ t. Quiet-state t (end_span rs ctx name t) (end_span-Quiet rs ctx name t))
        (by (start_span rs ctx name s) (start_span-Quiet rs ctx name s))
    where
      name : String
      name = "saga:" ++ rs.definition.name

      by :
          (y : Outcome (Unit {0}) × State W D)
          → Ensures (Quiet s) y
          → Lands (Yields (evaluate ps x)) (after y (λ _. run_timed rs (span_context rs ctx name)))
      by (ok a, t) q =
          run_timed-Lands ps (span_context rs ctx name) x t are untimed
            (span-IsOpen rs calm ctx name h) (subst (IsFresh x) (sym q.0) f)
      by (panic p, t) q = tt

  run_leased-Lands :
      (ps : List (PureStep D)) (ctx : Context) (x : Option D) (l : Locker W) (e : Option Error)
      (s : State W D)
      → Breaks (ok e, s)
      → ArePure rs.definition.steps ps
      → leb_ℤ rs.definition.timeout (pos 0) ≡ true
      → IsOpen ctx
      → IsFresh x s.exec
      → Lands (Yields (evaluate ps x)) (run_leased rs ctx l e s)
  unfolding run_leased
  run_leased-Lands ps ctx x l (some e) s b are untimed h f = inr b
  run_leased-Lands ps ctx x l none s b are untimed h f =
      deferred-Lands rs (Yields (evaluate ps x)) (release rs ctx l) (run_spanned rs ctx s)
        (λ t. Quiet-state t (release rs ctx l t) (release-Quiet rs ctx l t))
        (run_spanned-Lands ps ctx x s are untimed h f)

module _ {W D : Type 0} (r : Runtime W) (calm : IsCalm r) (d : Definition W D)
    (ps : List (PureStep D)) (are : ArePure d.steps ps)
    (untimed : leb_ℤ d.timeout (pos 0) ≡ true) where
  resume-Lands :
      (ctx : Context) (x : Option D) (s : State W D)
      → IsOpen ctx
      → IsFresh (run_state r d none "") calm x s.exec
      → Lands (Yields (evaluate ps x)) (resume r d ctx s)
  unfolding resume resume_with lease
  resume-Lands ctx x s h f = by d.store.locker
    where
      by : (o : Option (Locker W)) → Lands (Yields (evaluate ps x)) (resume_with r d ctx o s)
      by none = run_spanned-Lands (run_state r d none "") calm ps ctx x s are untimed h f
      by (some l) =
          let (owner, w) = r.new_id s.world in
          let (e, w') = l.acquire ctx s.exec.id owner d.lock_ttl w in
          let e' = lease_error r.format "saga: failed to acquire execution lock for " s.exec.id e in
          run_leased-Lands (run_state r d (some l) owner) calm ps ctx x l e'
            (record s { world = w'; calls = leased s.exec.id e' ∷ s.calls })
            (broken-Breaks e' s w' s.exec.id) are untimed h f

module _ {W D : Type 0} where
  start-Lands :
      (r : Runtime W) (d : Definition W D) (ps : List (PureStep D)) (ctx : Context)
      (input : Option D) (pointer : ℕ) (w : W)
      → IsCalm r
      → IsOpen ctx
      → leb_ℤ d.timeout (pos 0) ≡ true
      → ArePure d.steps ps
      → Lands (Yields (evaluate ps input)) (execute r d ctx input pointer w).1
  unfolding execute start freeze
  start-Lands r d ps ctx input pointer w calm h untimed are = by (save_error r.format s.exec.id e)
    where
      s : State W D
      s = initial r (freeze d) input pointer w

      e : Option Error
      e = (d.store.save ctx s.exec s.world).0

      t : Option Error → State W D
      t x = record s { world = (d.store.save ctx s.exec s.world).1; calls = saved s.exec x ∷ [] }

      by :
          (x : Option Error)
          → Lands (Yields (evaluate ps input)) (unless_error x (resume r (freeze d) ctx) (t x))
      by none =
          resume-Lands r calm (freeze d) ps are untimed ctx input (t none) h (refl, refl, refl)
      by (some y) = inr refl

  -- How a run of the saga that computes this has landed.
  abbrev pub HasYielded : Option D × Option Error → Option Error → State W D → Type 0
  HasYielded result e s = Lands (Yields result) (ok e, s)

  yielded :
      (n : ℕ) (result : Option D × Option Error) (x : Outcome (Option Error) × State W D)
      → Ensures (EndsWell n) x
      → Lands (Yields result) x
      → Ensures (HasYielded result) x
  yielded n result (ok e, s) h l = l
  yielded n result (panic p, s) h l = absurd h

  -- Let the action of every step compute a function of the data, whatever the world and the context
  -- are, let no context end and neither the saga nor a step have a timeout. Then `Execute` computes
  -- the composition of these functions, with any retries and any locker: it returns, and unless it
  -- returns the error of its last call, a failed save, acquisition or renewal of the lease, either all
  -- functions succeed, it returns no error, and the completed execution has their output; or the first
  -- one that fails has this error, the steps' name wrapped around it, and it returns that error, or
  -- that error wrapped as a failed compensation if the status is compensation_failed.
  pub execute_fold :
      (r : Runtime W) (d : Definition W D) (ps : List (PureStep D)) (ctx : Context)
      (input : Option D) (pointer : ℕ) (w : W)
      → HaveActions d.steps
      → IsCalm r
      → IsOpen ctx
      → leb_ℤ d.timeout (pos 0) ≡ true
      → ArePure d.steps ps
      → Ensures (HasYielded (evaluate ps input)) (execute r d ctx input pointer w).1
  execute_fold r d ps ctx input pointer w acts calm h untimed are =
      yielded (length d.steps) (evaluate ps input) (execute r d ctx input pointer w).1
        (execute_ends r d ctx input pointer w acts)
        (start-Lands r d ps ctx input pointer w calm h untimed are)
