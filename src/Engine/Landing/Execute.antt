-- ===== src/Engine/Landing/Execute.antt =====
-- What a run of resume and of Execute of execute.go has saved when it returns.
use Prim.Native.String.{◌++◌}
use go_orchestrator.Prelude.{
  ℕ, String, ◌≡◌, refl, sym, subst, inl, inr, Bool, true, false, Option, none, some, [], ◌∷◌,
  length, if◌then◌else◌,
}
use go_orchestrator.Prelude.Int.{pos, leb_ℤ}
use go_orchestrator.Status.{is_terminal}
use go_orchestrator.Errors.{Format, Error}
use go_orchestrator.Context.{Context}
use go_orchestrator.Interfaces.{Runtime, Locker}
use go_orchestrator.Execution.{Execution}
use go_orchestrator.Definition.{Definition, freeze}
use go_orchestrator.Definition.Names.{HaveActions}
use go_orchestrator.Engine.Monad.{
  M, Run, State, Outcome, ok, panic, saved, leased, after, unless_error,
}
use go_orchestrator.Engine.Notify.{span_context, start_span, end_span}
use go_orchestrator.Engine.Persist.{lease, lease_error, save_error}
use go_orchestrator.Engine.Resume.{
  run_untimed, run_with_timeout, run_timed, deferred, run_spanned, release, run_leased, run_state,
  resume_with, resume, start, initial, execute,
}
use go_orchestrator.Engine.Logic.{Ensures}
use go_orchestrator.Engine.Safety.Persist.{Quiet, start_span-Quiet, end_span-Quiet}
use go_orchestrator.Engine.Safety.Resume.{Quiet-state}
use go_orchestrator.Engine.Safety.Execute.{release-Quiet, EndsWell, execute_ends}
use go_orchestrator.Engine.Landing.{Breaks, Lands, Accounts}
use go_orchestrator.Engine.Landing.Resume.{dispatch-Lands}

module _ {W D : Type 0} (rs : Run W D) where
  run_timed-Lands :
      (ctx : Context) (s : State W D)
      → is_terminal s.exec.status ≡ false
      → Lands (Accounts rs.runtime.format) (run_timed rs ctx s)
  unfolding run_timed run_untimed run_with_timeout
  run_timed-Lands ctx s live = by (leb_ℤ rs.definition.timeout (pos 0))
    where
      by :
          (b : Bool)
          → Lands
              (Accounts rs.runtime.format)
              ((if b then run_untimed rs ctx else run_with_timeout rs ctx) s)
      by true = dispatch-Lands rs ctx none s.exec.status s live
      by false = dispatch-Lands rs _ _ s.exec.status _ live

  -- What `defer` runs leaves the execution and the calls alone.
  pub deferred-Lands :
      (Q : Option Error → Execution D → Type 0) (last : M W D (Unit {0}))
      (x : Outcome (Option Error) × State W D)
      → ((s : State W D) → Quiet s tt (last s).1)
      → Lands Q x
      → Lands Q (deferred last x)
  deferred-Lands Q last (ok none, s) q h =
      (rw ((q s).0, (q s).1) h.0, subst (Q none) (sym (q s).0) h.1)
  deferred-Lands Q last (ok (some e), s) q (inl h) =
      inl (rw ((q s).0, (q s).1) h.0, subst (Q (some e)) (sym (q s).0) h.1)
  deferred-Lands Q last (ok (some e), s) q (inr b) = inr (rw (q s).1 b)
  deferred-Lands Q last (panic p, s) q h = tt

  run_spanned-Lands :
      (ctx : Context) (s : State W D)
      → is_terminal s.exec.status ≡ false
      → Lands (Accounts rs.runtime.format) (run_spanned rs ctx s)
  unfolding run_spanned
  run_spanned-Lands ctx s live =
      deferred-Lands (Accounts rs.runtime.format) (end_span rs ctx name) _
        (λ t. Quiet-state t (end_span rs ctx name t) (end_span-Quiet rs ctx name t))
        (by (start_span rs ctx name s) (start_span-Quiet rs ctx name s))
    where
      name : String
      name = "saga:" ++ rs.definition.name

      by :
          (x : Outcome (Unit {0}) × State W D)
          → Ensures (Quiet s) x
          → Lands
              (Accounts rs.runtime.format)
              (after x (λ _. run_timed rs (span_context rs ctx name)))
      by (ok a, t) q =
          run_timed-Lands (span_context rs ctx name) t
            (subst (λ (e : Execution D). is_terminal e.status ≡ false) (sym q.0) live)
      by (panic p, t) q = tt

  run_leased-Lands :
      (ctx : Context) (l : Locker W) (e : Option Error) (s : State W D)
      → Breaks (ok e, s)
      → is_terminal s.exec.status ≡ false
      → Lands (Accounts rs.runtime.format) (run_leased rs ctx l e s)
  unfolding run_leased
  run_leased-Lands ctx l (some e) s b live = inr b
  run_leased-Lands ctx l none s b live =
      deferred-Lands (Accounts rs.runtime.format) (release rs ctx l) (run_spanned rs ctx s)
        (λ t. Quiet-state t (release rs ctx l t) (release-Quiet rs ctx l t))
        (run_spanned-Lands ctx s live)

module _ {W D : Type 0} where
  pub broken-Breaks :
      (e : Option Error) (s : State W D) (w : W) (id : String)
      → Breaks (ok e, record s { world = w; calls = leased id e ∷ s.calls })
  broken-Breaks none s w id = tt
  broken-Breaks (some e) s w id = refl

  pub resume-Lands :
      (r : Runtime W) (d : Definition W D) (ctx : Context) (s : State W D)
      → is_terminal s.exec.status ≡ false
      → Lands (Accounts r.format) (resume r d ctx s)
  unfolding resume resume_with lease
  resume-Lands r d ctx s live = by d.store.locker
    where
      by : (o : Option (Locker W)) → Lands (Accounts r.format) (resume_with r d ctx o s)
      by none = run_spanned-Lands (run_state r d none "") ctx s live
      by (some l) =
          let (owner, w) = r.new_id s.world in
          let (e, w') = l.acquire ctx s.exec.id owner d.lock_ttl w in
          let e' = lease_error r.format "saga: failed to acquire execution lock for " s.exec.id e in
          run_leased-Lands (run_state r d (some l) owner) ctx l e'
            (record s { world = w'; calls = leased s.exec.id e' ∷ s.calls })
            (broken-Breaks e' s w' s.exec.id) live

  start-Lands :
      (r : Runtime W) (d : Definition W D) (ctx : Context) (input : Option D) (pointer : ℕ) (w : W)
      → Lands (Accounts r.format) (execute r d ctx input pointer w).1
  unfolding execute start freeze
  start-Lands r d ctx input pointer w = by (save_error r.format s.exec.id e)
    where
      s : State W D
      s = initial r (freeze d) input pointer w

      e : Option Error
      e = (d.store.save ctx s.exec s.world).0

      t : Option Error → State W D
      t x = record s { world = (d.store.save ctx s.exec s.world).1; calls = saved s.exec x ∷ [] }

      by :
          (x : Option Error)
          → Lands (Accounts r.format) (unless_error x (resume r (freeze d) ctx) (t x))
      by none = resume-Lands r (freeze d) ctx (t none) refl
      by (some y) = inr refl

  -- `Lands` for a run that returns.
  abbrev pub HasLanded : Format → Option Error → State W D → Type 0
  HasLanded f e s = Lands (Accounts f) (ok e, s)

  landed :
      (f : Format) (n : ℕ) (x : Outcome (Option Error) × State W D)
      → Ensures (EndsWell n) x
      → Lands (Accounts f) x
      → Ensures (HasLanded f) x
  landed f n (ok e, s) h l = l
  landed f n (panic p, s) h l = absurd h

  -- For a definition whose steps all have actions, `Execute` returns. When it returns no error, the
  -- execution that it leaves is completed, and its last call was the save, without an error, of exactly
  -- that execution. When it returns an error, either its last call was such a save as well, the
  -- execution is failed, compensated or compensation_failed, and the error is, in the first two cases,
  -- one whose text is the `Error` of the execution, and in the third such a one wrapped as a failed
  -- compensation; or the error is that of the last call, a failed save, acquisition or renewal of the
  -- lease.
  pub execute_lands :
      (r : Runtime W) (d : Definition W D) (ctx : Context) (input : Option D) (pointer : ℕ) (w : W)
      → HaveActions d.steps
      → Ensures (HasLanded r.format) (execute r d ctx input pointer w).1
  execute_lands r d ctx input pointer w acts =
      landed r.format (length d.steps) (execute r d ctx input pointer w).1
        (execute_ends r d ctx input pointer w acts) (start-Lands r d ctx input pointer w)
