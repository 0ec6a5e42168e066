-- ===== src/Engine/Kept/Resume.antt =====
-- What resume of execute.go keeps, and Execute after its first save.
use Prim.Native.String.{◌++◌}
use go_orchestrator.Prelude.{◌+◌, String, ◌≡◌, refl, subst, Option, none, some}
use go_orchestrator.Prelude.Int.{pos, pos_part, leb_ℤ}
use go_orchestrator.Status.{Status}
use go_orchestrator.Errors.{Error, saga_timeout}
use go_orchestrator.Context.{Context, with_timeout_cause, without_cancel}
use go_orchestrator.Interfaces.{Runtime, Locker}
use go_orchestrator.Definition.{Definition}
use go_orchestrator.Engine.Monad.{
  M, Run, State, Outcome, ok, panic, ◌>>=◌, ◌>>◌, allocate, now, ask_outside, after,
}
use go_orchestrator.Engine.Notify.{span_context, start_span, end_span}
use go_orchestrator.Engine.Persist.{transition_exec, lease}
use go_orchestrator.Engine.Attempts.{SagaTimeout}
use go_orchestrator.Engine.Running.{resume_running}
use go_orchestrator.Engine.Resume.{
  dispatch, run_untimed, run_with_timeout, run_timed, deferred, run_spanned, release, run_leased,
  run_state, resume_with, resume,
}
use go_orchestrator.Engine.Kept.{
  Identity, OnSome, IsKept, Good, Keeps, pure-Keeps, bind-Keeps, try-Keeps,
}
use go_orchestrator.Engine.Kept.Notify.{
  if-Keeps, ask_outside-Keeps, now-Keeps, start_span-Keeps, end_span-Keeps,
}
use go_orchestrator.Engine.Kept.Persist.{lease-Good}
use go_orchestrator.Engine.Kept.Transitions.{transition_exec-Keeps}
use go_orchestrator.Engine.Kept.Attempts.{allocate-Keeps}
use go_orchestrator.Engine.Kept.Undo.{get_exec-Keeps}
use go_orchestrator.Engine.Kept.Abort.{resume_compensating-Keeps}
use go_orchestrator.Engine.Kept.Forward.{resume_running-Keeps}

module _ {W D : Type 0} {rs : Run W D} {v : Identity D} {Same : W → W → Type 0}
    {Holds : State W D → Type 0} (k : IsKept rs v Same Holds) where
  dispatch-Keeps :
      (ctx : Context) (late : SagaTimeout) (st : Status) → Keeps v Holds (dispatch rs ctx late st)
  unfolding dispatch
  dispatch-Keeps ctx late Status.pending =
      try-Keeps v Holds (transition_exec rs ctx Status.running) (resume_running rs ctx late)
        (transition_exec-Keeps k ctx Status.running) (resume_running-Keeps k ctx late)
  dispatch-Keeps ctx late Status.running = resume_running-Keeps k ctx late
  dispatch-Keeps ctx late Status.compensating = resume_compensating-Keeps k ctx
  dispatch-Keeps ctx late Status.completed = pure-Keeps v Holds none
  dispatch-Keeps ctx late Status.failed = pure-Keeps v Holds none
  dispatch-Keeps ctx late Status.compensated = pure-Keeps v Holds none
  dispatch-Keeps ctx late Status.compensation_failed = pure-Keeps v Holds none

  run_untimed-Keeps : (ctx : Context) → Keeps v Holds (run_untimed rs ctx)
  unfolding run_untimed
  run_untimed-Keeps ctx = get_exec-Keeps k _ (λ x. dispatch-Keeps ctx none x.status)

  run_with_timeout-Keeps : (ctx : Context) → Keeps v Holds (run_with_timeout rs ctx)
  unfolding run_with_timeout
  run_with_timeout-Keeps ctx = bind-Keeps v Holds allocate _ (allocate-Keeps k) λ p.
      bind-Keeps v Holds (now rs.runtime) _ (now-Keeps k.world) λ at.
        let late = saga_timeout p rs.definition.name rs.definition.timeout in
        get_exec-Keeps k _ (λ x.
          dispatch-Keeps (with_timeout_cause ctx (at + pos_part rs.definition.timeout) late)
            (some (p, late)) x.status)

  run_timed-Keeps : (ctx : Context) → Keeps v Holds (run_timed rs ctx)
  unfolding run_timed
  run_timed-Keeps ctx =
      if-Keeps (leb_ℤ rs.definition.timeout (pos 0)) (run_untimed rs ctx) (run_with_timeout rs ctx)
        (run_untimed-Keeps ctx) (run_with_timeout-Keeps ctx)

  deferred-Good :
      {A : Type 0} (last : M W D (Unit {0})) (x : Outcome A × State W D)
      → Keeps v Holds last
      → Good v Holds x.1
      → Good v Holds (deferred last x).1
  deferred-Good last (a, s) h g = h.apply s g

  run_spanned-Keeps : (ctx : Context) → Keeps v Holds (run_spanned rs ctx)
  unfolding run_spanned
  run_spanned-Keeps ctx = record {
    apply = λ s g.
        deferred-Good (end_span rs ctx name)
          ((start_span rs ctx name >> run_timed rs (span_context rs ctx name)) s)
          (end_span-Keeps k.world ctx name)
          ((bind-Keeps v Holds (start_span rs ctx name)
              (λ _. run_timed rs (span_context rs ctx name)) (start_span-Keeps k.world ctx name)
              (λ _. run_timed-Keeps (span_context rs ctx name))).apply
            s g);
  }
    where
      name : String
      name = "saga:" ++ rs.definition.name

  release-Keeps :
      (ctx : Context) (l : Locker W) → rs.locker ≡ some l → Keeps v Holds (release rs ctx l)
  unfolding release
  release-Keeps ctx l e = get_exec-Keeps k _ λ x.
      bind-Keeps v Holds (ask_outside (l.release (without_cancel ctx) x.id rs.lock_owner)) _
        (ask_outside-Keeps k.world _
          (subst (OnSome _) e k.world.apart.releases (without_cancel ctx) x.id rs.lock_owner))
        (λ _. pure-Keeps v Holds tt)

  run_leased-Good :
      (ctx : Context) (l : Locker W) (e : Option Error) (s : State W D)
      → rs.locker ≡ some l
      → Good v Holds s
      → Good v Holds (run_leased rs ctx l e s).1
  unfolding run_leased
  run_leased-Good ctx l (some e) s at g = g
  run_leased-Good ctx l none s at g =
      deferred-Good (release rs ctx l) (run_spanned rs ctx s) (release-Keeps ctx l at)
        ((run_spanned-Keeps ctx).apply s g)

module _ {W D : Type 0} (r : Runtime W) (d : Definition W D) (v : Identity D)
    (Same : W → W → Type 0) (Holds : State W D → Type 0) where
  -- The rule: what holds before `resume`, and is kept by every elementary action of it, holds after
  -- it, whether it returns or panics.
  pub resume-Keeps :
      (ctx : Context)
      → ((w : W) → Same w (r.new_id w).1)
      → ((owner : String) → IsKept (run_state r d d.store.locker owner) v Same Holds)
      → Keeps v Holds (resume r d ctx)
  unfolding resume resume_with
  resume-Keeps ctx fresh k = by d.store.locker k
    where
      what : String
      what = "saga: failed to acquire execution lock for "

      by :
          (o : Option (Locker W))
          → ((owner : String) → IsKept (run_state r d o owner) v Same Holds)
          → Keeps v Holds (resume_with r d ctx o)
      by none k = run_spanned-Keeps (k "") ctx
      by (some l) k =
          bind-Keeps v Holds (ask_outside r.new_id)
            (λ owner.
              lease (run_state r d (some l) owner) ctx what l
              >>= run_leased (run_state r d (some l) owner) ctx l)
            (ask_outside-Keeps (k "").world r.new_id fresh)
            (λ owner. record {
              apply = λ s g.
                  leased_after (run_state r d (some l) owner) (k owner)
                    (lease (run_state r d (some l) owner) ctx what l s) refl
                    (lease-Good (k owner) ctx what l s refl g);
            })
        where
          leased_after :
              (rs : Run W D)
              → IsKept rs v Same Holds
              → (x : Outcome (Option Error) × State W D) → rs.locker ≡ some l
              → Good v Holds x.1
              → Good v Holds (after x (run_leased rs ctx l)).1
          leased_after rs k (ok e, s) at g = run_leased-Good k ctx l e s at g
          leased_after rs k (panic p, s) at g = g
