-- ===== src/Memory/Backend/View.antt =====
-- The abstract view of store/memory/memory.go under the engine of execute.go: under each ID, the
-- newest execution that was saved.
use go_orchestrator.Prelude.{
  ℕ, String, ◌≡◌, ap, subst, ◌∙◌, inl, inr, Option, none, some, some_inj, List, [], ◌∷◌, str_eq,
  str_eq→eq, str_eq→ne, if◌then◌else◌, Bool-cases, arith,
}
use go_orchestrator.Prelude.Int.{ℤ}
use go_orchestrator.Errors.{Format}
use go_orchestrator.Context.{Context}
use go_orchestrator.Interfaces.{Runtime, Locker}
use go_orchestrator.Execution.{Execution, clone}
use go_orchestrator.Definition.{Definition, with_store}
use go_orchestrator.Engine.Monad.{State, Call, saved, leased, acted, undone}
use go_orchestrator.Engine.Persist.{save_error}
use go_orchestrator.Engine.Resume.{run_state}
use go_orchestrator.Engine.Kept.{Identity, IsApart, IsKept}
use go_orchestrator.Memory.{MemoryStore, lookup, insert, save, acquire, release}
use go_orchestrator.Memory.Laws.{lookup-insert_self, lookup-insert_other, clone_lem}
use go_orchestrator.Memory.Backend.{Place, IsPlace, memory_locker, memory_store}

module _ {D : Type 0} where
  -- The newest execution with this ID that a call has saved, or else what was there before.
  abbrev pub latest : String → List (Call D) → Option (Execution D) → Option (Execution D)
  latest id [] before = before
  latest id (saved x none ∷ calls) before =
      if str_eq x.id id then some x else latest id calls before
  latest id (saved x (some e) ∷ calls) before = latest id calls before
  latest id (leased i e ∷ calls) before = latest id calls before
  latest id (acted name ctx x e ∷ calls) before = latest id calls before
  latest id (undone name ctx x e ∷ calls) before = latest id calls before

  acquire-data_map :
      (id owner : String) (ttl : ℤ) (now : ℕ) (s : MemoryStore D)
      → (acquire id owner ttl now s).1.data_map ≡ s.data_map
  unfolding acquire
  acquire-data_map id owner ttl now s = ground arith

  release-data_map :
      (id owner : String) (s : MemoryStore D) → (release id owner s).1.data_map ≡ s.data_map
  unfolding release
  release-data_map id owner s = ground arith

  -- A save, whether it is refused or not, is a step of `latest`.
  pub save-latest :
      (f : Format) (x : Execution D) (s : MemoryStore D) (id : String) (calls : List (Call D))
      (before : Option (Execution D))
      → lookup id s.data_map ≡ latest id calls before
      → lookup id (save x s).1.data_map
        ≡ latest id (saved x (save_error f x.id (save x s).0) ∷ calls) before
  unfolding save
  save-latest f x s id calls before h = elim (Bool-cases (str_eq x.id "")) [
    | inl p ↦ rw p h
    | inr p ↦ rw p (elim (Bool-cases (str_eq x.id id)) [
      | inl q ↦ rw q (
          subst (λ (k : String). lookup k (insert x.id (clone x) s.data_map) ≡ some x)
            (str_eq→eq x.id id q)
            (lookup-insert_self x.id (clone x) s.data_map ∙ ap some (clone_lem x)))
      | inr q ↦ rw q (lookup-insert_other x.id id (clone x) s.data_map (str_eq→ne x.id id q) ∙ h)
    ])
  ]

module _ {W D : Type 0} (place : Place W D) (id : String) where
  -- The execution with this ID that the store holds stays. Its leases, and all else that it holds,
  -- may change.
  abbrev pub SameEntry : W → W → Type 0
  SameEntry w w' = lookup id (place.memory w').data_map ≡ lookup id (place.memory w).data_map

  -- The store holds what the calls have saved.
  abbrev pub IsView : Option (Execution D) → State W D → Type 0
  IsView before s = lookup id (place.memory s.world).data_map ≡ latest id s.calls before

module _ {W D : Type 0} (place : Place W D) (lawful : IsPlace place) (id : String) where
  pub put-SameEntry :
      (m : MemoryStore D) (w : W)
      → m.data_map ≡ (place.memory w).data_map
      → SameEntry place id w (place.put m w)
  put-SameEntry m w e =
      ap (λ (m : MemoryStore D). lookup id m.data_map) (lawful.memory-put m w) ∙ ap (lookup id) e

  locker-SameEntry :
      (l : Locker W)
      → some (memory_locker place) ≡ some l
      → (ctx : Context) (i owner : String) (ttl : ℤ) (w : W)
      → SameEntry place id w (l.acquire ctx i owner ttl w).1
  locker-SameEntry l e ctx i owner ttl w =
      subst (λ (l : Locker W). SameEntry place id w (l.acquire ctx i owner ttl w).1) (some_inj e)
        (put-SameEntry (acquire i owner ttl (place.now w) (place.memory w)).1 w
          (acquire-data_map i owner ttl (place.now w) (place.memory w)))

  pub IsView-IsKept :
      (r : Runtime W) (d : Definition W D) (owner : String) (v : Identity D)
      (before : Option (Execution D))
      → IsApart (SameEntry place id) r d none
      → IsKept
          (run_state r (with_store (memory_store place) d) (some (memory_locker place)) owner)
          v
          (SameEntry place id)
          (IsView place id before)
  IsView-IsKept r d owner v before apart = record {
    world = record {
      apart = record {
        tick = apart.tick;
        sleep = apart.sleep;
        publisher = apart.publisher;
        logger = apart.logger;
        counters = apart.counters;
        durations = apart.durations;
        starts = apart.starts;
        ends = apart.ends;
        releases = λ ctx i owner w.
            put-SameEntry (release i owner (place.memory w)).1 w
              (release-data_map i owner (place.memory w));
        delays = apart.delays;
        steps = apart.steps;
      };
      moves = λ s w m h. m ∙ h;
    };
    allocates = λ s p h. h;
    changes = λ s x e e' m h. h;
    publishes = λ s ev e n r h. h;
    leases =
        λ s l ctx what e at h. locker-SameEntry l at ctx s.exec.id owner d.lock_ttl s.world ∙ h;
    saves = λ s ctx e l h.
        ap (λ (m : MemoryStore D). lookup id m.data_map) (lawful.memory-put _ s.world)
        ∙ save-latest r.format s.exec (place.memory s.world) id s.calls before h;
    acts = λ s name ctx x e i o h. h;
    undoes = λ s name ctx x e i o h. h;
  }
