-- ===== src/Engine/Invariants/Progress.antt =====
-- Runs of Execute of execute.go on a store and a locker that do not fail.
use go_orchestrator.Prelude.{
  ℕ, String, ◌≡◌, ◌≢◌, refl, sym, ap, subst, ◌∙◌, inl, inr, ◌⊎◌, true, Option, none, some, List, [],
  ◌∷◌, All, length,
}
use go_orchestrator.Prelude.Int.{ℤ}
use go_orchestrator.Status.{Status, is_terminal}
use go_orchestrator.Errors.{Error}
use go_orchestrator.Context.{Context}
use go_orchestrator.Interfaces.{Runtime, Locker, Store}
use go_orchestrator.Execution.{Execution}
use go_orchestrator.Definition.{Definition, freeze}
use go_orchestrator.Definition.Names.{HaveActions}
use go_orchestrator.Engine.Monad.{
  Run, State, Outcome, ok, panic, Call, saved, leased, acted, undone,
}
use go_orchestrator.Engine.Persist.{save_error, lease_error}
use go_orchestrator.Engine.Resume.{run_state, initial, execute}
use go_orchestrator.Engine.Logic.{Ensures, IsBroken, Ended}
use go_orchestrator.Engine.Safety.Execute.{EndsWell, execute_ends}
use go_orchestrator.Engine.Kept.{Identity, identity, OnSome, IsKept}
use go_orchestrator.Engine.Kept.Execute.{Free, IsApart-Free, execute-Good}

module _ {W D : Type 0} where
  -- The store saves every execution with this ID, and the locker, if there is one, grants every lease
  -- of it.
  pub record IsReliable (store : Store W D) (id : String) : Type 0 where
    pub saves :
        (ctx : Context) (x : Execution D) (w : W) → x.id ≡ id → (store.save ctx x w).0 ≡ none
    pub grants :
        OnSome
          (λ (l : Locker W).
            (ctx : Context) (owner : String) (ttl : ℤ) (w : W)
            → (l.acquire ctx id owner ttl w).0 ≡ (true, none))
          store.locker

module _ {D : Type 0} where
  -- A save or a request for the lease had no error.
  abbrev pub IsFine : Call D → Type 0
  IsFine (saved x e) = e ≡ none
  IsFine (leased i e) = e ≡ none
  IsFine _ = Unit

  unbroken : (calls : List (Call D)) (e : Error) → All IsFine calls → IsBroken e calls → ⊥
  unbroken [] e h b = b
  unbroken (saved x none ∷ calls) e h b = b
  unbroken (saved x (some y) ∷ calls) e h b = cc (h.0)
  unbroken (leased i none ∷ calls) e h b = b
  unbroken (leased i (some y) ∷ calls) e h b = cc (h.0)
  unbroken (acted name ctx x y ∷ calls) e h b = b
  unbroken (undone name ctx x y ∷ calls) e h b = b

module _ {W D : Type 0} where
  IsFine-IsKept :
      (rs : Run W D) (v : Identity D)
      → IsReliable rs.definition.store v.0
      → rs.locker ≡ rs.definition.store.locker
      → IsKept rs v Free (λ s. All IsFine s.calls)
  IsFine-IsKept rs v reliable same = record {
    world = record {
      apart = IsApart-Free rs.runtime rs.definition rs.locker;
      moves = λ s w m h. h;
    };
    allocates = λ s p h. h;
    changes = λ s x e e' m h. h;
    publishes = λ s ev e n r h. h;
    leases = λ s l ctx what i at h. (granted s l ctx what i at, h);
    saves = λ s ctx i l h. (
      ap (save_error rs.runtime.format s.exec.id)
          (reliable.saves ctx s.exec s.world (ap (λ (u : Identity D). u.0) i)),
      h,
    );
    acts = λ s name ctx x e i o h. (tt, h);
    undoes = λ s name ctx x e i o h. (tt, h);
  }
    where
      granted :
          (s : State W D) (l : Locker W) (ctx : Context) (what : String)
          → identity s.exec ≡ v
          → rs.locker ≡ some l
          → lease_error rs.runtime.format what s.exec.id
              (l.acquire ctx s.exec.id rs.lock_owner rs.definition.lock_ttl s.world).0
            ≡ none
      granted s l ctx what i at = ap (lease_error rs.runtime.format what s.exec.id) (
          subst
            (λ (id : String).
              (l.acquire ctx id rs.lock_owner rs.definition.lock_ttl s.world).0 ≡ (true, none))
            (sym (ap (λ (u : Identity D). u.0) i))
            (subst (OnSome _) (sym same ∙ at) reliable.grants ctx rs.lock_owner
              rs.definition.lock_ttl s.world))

  -- An error, or none, that goes with the status.
  abbrev pub Concludes : Option Error → State W D → Type 0
  Concludes e s =
      (is_terminal s.exec.status ≡ true)
      × ((e ≡ none) × (s.exec.status ≡ Status.completed)
          ⊎ (e ≢ none) × (s.exec.status ≢ Status.completed))

  concluded :
      (n : ℕ) (x : Outcome (Option Error) × State W D)
      → All IsFine x.1.calls
      → Ensures (EndsWell n) x
      → Ensures Concludes x
  concluded n (ok none, s) f h = (rw h.1.0 refl, inl (refl, h.1.0))
  concluded n (ok (some e), s) f h = ended h.1
    where
      ended : Ended n (some e) s → Concludes (some e) s
      ended (inl t) = (t.0, inr ((λ p. cc p), t.1))
      ended (inr b) = absurd (unbroken s.calls e f b)
  concluded n (panic p, s) f h = absurd h

  -- If the store saves every execution with the new ID, and its locker, if it is one, grants every
  -- lease of it, and all steps have actions, then `Execute` returns and leaves the execution in a
  -- terminal status: completed exactly when it returns no error. The actions and compensations may
  -- fail, and the contexts end, in any way.
  pub execute-Concludes :
      (r : Runtime W) (d : Definition W D) (ctx : Context) (input : Option D) (pointer : ℕ) (w : W)
      → HaveActions d.steps
      → IsReliable d.store (initial r (freeze d) input pointer w).exec.id
      → Ensures Concludes (execute r d ctx input pointer w).1
  unfolding freeze
  execute-Concludes r d ctx input pointer w acts reliable =
      let s = initial r (freeze d) input pointer w in
      concluded (length d.steps) (execute r d ctx input pointer w).1
        (execute-Good r d Free (λ s. All IsFine s.calls) ctx input pointer w (λ w. tt)
          (λ owner. IsFine-IsKept (run_state r (freeze d) d.store.locker owner) _ reliable refl)
          (ap (save_error r.format s.exec.id) (reliable.saves ctx s.exec s.world refl), tt)).1
        (execute_ends r d ctx input pointer w acts)
