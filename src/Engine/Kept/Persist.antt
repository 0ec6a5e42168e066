-- ===== src/Engine/Kept/Persist.antt =====
-- What save, transitionExec and transitionStep of execute.go keep.
use go_orchestrator.Prelude.{
  ℕ, String, ◌≡◌, refl, sym, ap, subst, ◌∙◌, inl, Bool, Option, none, some, List, ◌∷◌, arith,
  get_elem?, set,
}
use go_orchestrator.Status.{StepStatus}
use go_orchestrator.Errors.{Error}
use go_orchestrator.Context.{Context}
use go_orchestrator.Interfaces.{Locker}
use go_orchestrator.Execution.{Execution, StepExecution, enter_step}
use go_orchestrator.Engine.Monad.{
  M, Run, State, Outcome, ok, panic, ◌>>=◌, get_step, put_step, put_exec, unless_error, saved,
  leased,
}
use go_orchestrator.Engine.Persist.{save, lease, write, lease_error, save_error}
use go_orchestrator.Engine.Rollback.Order.{names-set}
use go_orchestrator.Engine.Rollback.Picks.{get_step-any}
use go_orchestrator.Engine.Kept.{Identity, identity, IsNewest, IsLeased, IsKept, Good, Keeps}

module _ {D : Type 0} where
  pub enter_step-name :
      (to : StepStatus) (at : ℕ) (x : StepExecution D) → (enter_step to at x).name ≡ x.name
  enter_step-name to at x = ground arith

module _ {W D : Type 0} {rs : Run W D} {v : Identity D} {Same : W → W → Type 0}
    {Holds : State W D → Type 0} (k : IsKept rs v Same Holds) where
  -- A change of the execution that its identity and its status survive.
  pub put_exec-Keeps :
      (f : Execution D → Execution D)
      → ((x : Execution D) → (identity (f x) ≡ identity x) × ((f x).status ≡ x.status))
      → Keeps v Holds (put_exec f)
  put_exec-Keeps f h = record {
    apply = λ s g.
        let same = (h s.exec).0 ∙ g.0 in
        (same, k.changes s (f s.exec) g.0 same (inl (h s.exec).1) g.1);
  }

  -- A step is read through its index.
  pub get_step-Good :
      {A : Type 0} (i : ℕ) (f : StepExecution D → M W D A) (s : State W D)
      → Good v Holds s
      → ((x : StepExecution D) → get_elem? s.exec.steps i ≡ some x → Good v Holds (f x s).1)
      → Good v Holds ((get_step i >>= f) s).1
  get_step-Good i f s g h = get_step-any (λ r. Good v Holds r.1) i f s g h

  pub get_step-Keeps :
      {A : Type 0} (i : ℕ) (f : StepExecution D → M W D A)
      → ((x : StepExecution D) → Keeps v Holds (f x))
      → Keeps v Holds (get_step i >>= f)
  get_step-Keeps i f h = record { apply = λ s g. get_step-Good i f s g (λ x e. (h x).apply s g) }

  -- What is written back has the name of what was read.
  pub put_step-Good :
      (i : ℕ) (x y : StepExecution D) (s : State W D)
      → get_elem? s.exec.steps i ≡ some x
      → y.name ≡ x.name
      → Good v Holds s
      → Good v Holds (put_step i y s).1
  put_step-Good i x y s found e g =
      let same : identity (record s.exec { steps = set s.exec.steps i y }) ≡ v =
        ap (λ (l : List String). (s.exec.id, s.exec.saga_name, s.exec.input, s.exec.created_at, l))
          (names-set s.exec.steps i x y found e)
        ∙ g.0 in
      (same, k.changes s (record s.exec { steps = set s.exec.steps i y }) g.0 same (inl refl) g.1)

  -- The two renewals of the lease, and the first acquisition.
  pub lease-Good :
      (ctx : Context) (what : String) (l : Locker W) (s : State W D)
      → rs.locker ≡ some l
      → Good v Holds s
      → Good v Holds (lease rs ctx what l s).1
  unfolding lease
  lease-Good ctx what l s e g = (g.0, k.leases s l ctx what g.0 e g.1)

  -- After a save with no error the newest call is that of what was saved.
  abbrev pub Written : State W D → Outcome (Option Error) × State W D → Type 0
  Written s (ok none, t) = Good v Holds t × (t.exec ≡ s.exec) × IsNewest t.exec t.calls
  Written s (ok (some e), t) = Good v Holds t
  Written s (panic p, t) = Good v Holds t

  write-Written :
      (ctx : Context) (s : State W D)
      → IsLeased rs.locker s.exec.id s.calls
      → Good v Holds s
      → Written s (write rs ctx s)
  unfolding write
  write-Written ctx s h g =
      by (save_error rs.runtime.format s.exec.id (rs.definition.store.save ctx s.exec s.world).0)
        (k.saves s ctx g.0 h g.1)
    where
      t : State W D
      t = record s { world = (rs.definition.store.save ctx s.exec s.world).1 }

      by :
          (e : Option Error)
          → Holds (record t { calls = saved s.exec e ∷ s.calls })
          → Written s (ok e, record t { calls = saved s.exec e ∷ s.calls })
      by none p = ((g.0, p), refl, refl)
      by (some e) p = (g.0, p)

  renewal : String
  renewal = "saga: failed to renew execution lock for "

  locked-Written :
      (ctx : Context) (l : Locker W) (s : State W D)
      → rs.locker ≡ some l
      → Good v Holds s
      → Written s ((lease rs ctx renewal l >>= λ e. unless_error e (write rs ctx)) s)
  unfolding lease renewal
  locked-Written ctx l s e g =
      by (lease_error rs.runtime.format renewal s.exec.id r.0) (lease-Good ctx renewal l s e g)
    where
      r : (Bool × Option Error) × W
      r = l.acquire ctx s.exec.id rs.lock_owner rs.definition.lock_ttl s.world

      t : Option Error → State W D
      t x = record s { world = r.1; calls = leased s.exec.id x ∷ s.calls }

      by : (x : Option Error) → Good v Holds (t x) → Written s (unless_error x (write rs ctx) (t x))
      by none p =
          write-Written ctx (t none)
            (subst (λ (o : Option (Locker W)). IsLeased o s.exec.id (t none).calls) (sym e) refl) p
      by (some y) p = p

  pub save-Written : (ctx : Context) (s : State W D) → Good v Holds s → Written s (save rs ctx s)
  unfolding save renewal
  save-Written ctx s g = by rs.locker refl
    where
      chosen : Option (Locker W) → M W D (Option Error)
      chosen o = elim o [
        | none ↦ write rs ctx
        | some l ↦ lease rs ctx "saga: failed to renew execution lock for " l >>= λ e.
            unless_error e (write rs ctx)
      ]

      by : (o : Option (Locker W)) → rs.locker ≡ o → Written s (chosen o s)
      by none e =
          write-Written ctx s
            (subst (λ (o : Option (Locker W)). IsLeased o s.exec.id s.calls) (sym e) tt) g
      by (some l) e = locked-Written ctx l s e g
