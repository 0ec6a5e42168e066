-- ===== src/Memory/Backend/Runs.antt =====
-- Runs of Execute of execute.go on the store of store/memory/memory.go.
use go_orchestrator.Prelude.{
  ℕ, String, ◌≡◌, refl, sym, ap, subst, ◌∙◌, inl, inr, ◌⊎◌, true, Option, none, some, List, [], ◌∷◌,
  length, str_eq_refl,
}
use go_orchestrator.Status.{is_terminal}
use go_orchestrator.Errors.{Format, Error}
use go_orchestrator.Context.{Context}
use go_orchestrator.Interfaces.{Runtime}
use go_orchestrator.Execution.{Execution}
use go_orchestrator.Definition.{Definition, with_store, freeze}
use go_orchestrator.Definition.Names.{HaveActions}
use go_orchestrator.Engine.Monad.{State, Outcome, ok, panic, Call, saved, leased, acted, undone}
use go_orchestrator.Engine.Resume.{execute}
use go_orchestrator.Engine.Logic.{Ensures, IsBroken, Ended}
use go_orchestrator.Engine.Safety.Execute.{EndsWell, execute_ends}
use go_orchestrator.Engine.Landing.Execute.{HasLanded, execute_lands}
use go_orchestrator.Engine.Invariants.Keys.{execute-identity}
use go_orchestrator.Engine.Kept.{Identity, IsNewest, IsApart}
use go_orchestrator.Engine.Kept.Execute.{execute-Good}
use go_orchestrator.Memory.{MemoryStore, lookup, get, found}
use go_orchestrator.Memory.Laws.{clone_lem}
use go_orchestrator.Memory.Backend.{Place, IsPlace, memory_store}
use go_orchestrator.Memory.Backend.View.{latest, save-latest, SameEntry, IsView, IsView-IsKept}

module _ {D : Type 0} where
  newest-latest :
      (x : Execution D) (calls : List (Call D)) (before : Option (Execution D))
      → IsNewest x calls
      → latest x.id calls before ≡ some x
  newest-latest x (saved y none ∷ calls) before h =
      subst (λ (z : Execution D). latest x.id (saved z none ∷ calls) before ≡ some x) (sym h)
        (rw (str_eq_refl x.id) refl)
  newest-latest x (saved y (some e) ∷ calls) before h = absurd h
  newest-latest x (leased i e ∷ calls) before h = absurd h
  newest-latest x (acted name ctx y e ∷ calls) before h = absurd h
  newest-latest x (undone name ctx y e ∷ calls) before h = absurd h
  newest-latest x [] before h = absurd h

module _ {W D : Type 0} (place : Place W D) where
  -- A run of `Execute` on the in-memory store, started in this world.
  abbrev pub run_in_memory :
      Runtime W → Definition W D → Context → Option D → ℕ → W → Outcome (Option Error) × State W D
  run_in_memory r d ctx input pointer w =
      (execute r (with_store (memory_store place) d) ctx input pointer w).1

  -- The ID that the run makes.
  abbrev pub new_id_of : Runtime W → W → String
  new_id_of r w = (r.new_id (r.tick w)).0

  -- What `execute_view` says, of the entry itself.
  pub entry_view :
      (r : Runtime W) (d : Definition W D) (ctx : Context) (input : Option D) (pointer : ℕ) (w : W)
      → IsPlace place
      → IsApart (SameEntry place (new_id_of r w)) r d none
      → ((w' : W) → SameEntry place (new_id_of r w) w' (r.new_id w').1)
      → let s = (run_in_memory r d ctx input pointer w).1 in
        lookup (new_id_of r w) (place.memory s.world).data_map
        ≡ latest (new_id_of r w) s.calls (lookup (new_id_of r w) (place.memory w).data_map)
  unfolding freeze
  entry_view r d ctx input pointer w lawful apart fresh =
      (execute-Good r (with_store (memory_store place) d) (SameEntry place id)
        (IsView place id before) ctx input pointer w fresh
        (λ owner. IsView-IsKept place lawful id r (freeze d) owner _ before apart')
        (ap (λ (m : MemoryStore D). lookup id m.data_map) (lawful.memory-put _ _)
          ∙ save-latest r.format _ _ id [] before (fresh (r.tick w) ∙ apart.tick w))).1
    where
      id : String
      id = new_id_of r w

      before : Option (Execution D)
      before = lookup id (place.memory w).data_map

      apart' : IsApart (SameEntry place id) r (freeze d) none
      apart' = record {
        tick = apart.tick;
        sleep = apart.sleep;
        publisher = apart.publisher;
        logger = apart.logger;
        counters = apart.counters;
        durations = apart.durations;
        starts = apart.starts;
        ends = apart.ends;
        releases = tt;
        delays = apart.delays;
        steps = apart.steps;
      }

  -- Let nothing but the store's own methods, as the run calls them, change the entry of the new ID in
  -- an in-memory store that is in the world. Then after a run of `Execute` on that store, whether it
  -- returns or panics, `Get` of the ID gives the execution of the newest save that had no error, or
  -- what was under the ID before the run if there was none: no save is lost, and none that was
  -- refused is seen.
  pub execute_view :
      (r : Runtime W) (d : Definition W D) (ctx : Context) (input : Option D) (pointer : ℕ) (w : W)
      → IsPlace place
      → IsApart (SameEntry place (new_id_of r w)) r d none
      → ((w' : W) → SameEntry place (new_id_of r w) w' (r.new_id w').1)
      → let s = (run_in_memory r d ctx input pointer w).1 in
        get (new_id_of r w) (place.memory s.world)
        ≡ found (latest (new_id_of r w) s.calls (lookup (new_id_of r w) (place.memory w).data_map))
  unfolding get
  execute_view r d ctx input pointer w lawful apart fresh =
      ap found (entry_view r d ctx input pointer w lawful apart fresh)

  -- The execution is in a terminal status and `Get` of its ID gives exactly it, or the error is that
  -- of the last call, a failed save, acquisition or renewal of the lease.
  abbrev pub IsStored : Option Error → State W D → Type 0
  IsStored e s =
      ((is_terminal s.exec.status ≡ true)
        × (get s.exec.id (place.memory s.world) ≡ (some s.exec, none)))
      ⊎ (y : Error) × (e ≡ some y) × IsBroken y s.calls

  stored :
      (id : String) (before : Option (Execution D)) (s : State W D)
      → IsNewest s.exec s.calls
      → s.exec.id ≡ id
      → get id (place.memory s.world) ≡ found (latest id s.calls before)
      → get s.exec.id (place.memory s.world) ≡ (some s.exec, none)
  unfolding found
  stored id before s l i v =
      subst (λ (k : String). get k (place.memory s.world) ≡ found (latest k s.calls before)) (sym i)
        v
      ∙ ap found (newest-latest s.exec s.calls before l)
      ∙ ap (λ (x : Execution D). (some x, none)) (clone_lem s.exec)

  gather :
      (f : Format) (n : ℕ) (id : String) (before : Option (Execution D))
      (x : Outcome (Option Error) × State W D)
      → Ensures (EndsWell n) x
      → Ensures (HasLanded f) x
      → x.1.exec.id ≡ id
      → get id (place.memory x.1.world) ≡ found (latest id x.1.calls before)
      → Ensures IsStored x
  gather f n id before (ok none, s) h l i v = inl (rw h.1.0 refl, stored id before s l.0 i v)
  gather f n id before (ok (some e), s) h l i v = by h.1 l
    where
      by : Ended n (some e) s → HasLanded f (some e) s → IsStored (some e) s
      by (inl t) (inl m) = inl (t.0, stored id before s m.0 i v)
      by (inr b) _ = inr (e, refl, b)
      by (inl t) (inr b) = inr (e, refl, b)
  gather f n id before (panic p, s) h l i v = absurd h

  -- Let nothing but the store's own methods, as the run calls them, change the entry of the new ID in
  -- an in-memory store that is in the world, and let all steps have actions. Then a run of `Execute`
  -- on that store returns, and either the execution it leaves is in a terminal status and `Get` of
  -- its ID gives exactly that execution, or the error that it returns is that of the last call that
  -- it made, a failed save, acquisition or renewal of the lease.
  pub execute-IsStored :
      (r : Runtime W) (d : Definition W D) (ctx : Context) (input : Option D) (pointer : ℕ) (w : W)
      → HaveActions d.steps
      → IsPlace place
      → IsApart (SameEntry place (new_id_of r w)) r d none
      → ((w' : W) → SameEntry place (new_id_of r w) w' (r.new_id w').1)
      → Ensures IsStored (run_in_memory r d ctx input pointer w)
  execute-IsStored r d ctx input pointer w acts lawful apart fresh =
      let d' = with_store (memory_store place) d in
      gather r.format (length d.steps) (new_id_of r w)
        (lookup (new_id_of r w) (place.memory w).data_map) (run_in_memory r d ctx input pointer w)
        (execute_ends r d' ctx input pointer w acts) (execute_lands r d' ctx input pointer w acts)
        (ap (λ (u : Identity D). u.0) (execute-identity r d' ctx input pointer w).0)
        (execute_view r d ctx input pointer w lawful apart fresh)
