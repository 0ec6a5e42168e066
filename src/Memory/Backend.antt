-- ===== src/Memory/Backend.antt =====
-- store/memory/memory.go as the store and the locker of the engine of execute.go and as the lister of
-- recovery.go: a store is at a place in the world, where its methods read it and write it.
pub mod View
pub mod Runs
pub mod Recovery
use go_orchestrator.Prelude.{ℕ, String, ◌≡◌, Option, none, some, List}
use go_orchestrator.Prelude.Int.{ℤ}
use go_orchestrator.Errors.{Error}
use go_orchestrator.Context.{Context}
use go_orchestrator.Interfaces.{Locker, Store, Lister}
use go_orchestrator.Execution.{Execution}
use go_orchestrator.Memory.{MemoryStore, save, get, list_incomplete, acquire, release}

-- The place of a store in the world, and the clock that `Acquire` reads.
pub record Place (W D : Type 0) : Type 0 where
  pub now : W → ℕ
  pub memory : W → MemoryStore D
  pub put : MemoryStore D → W → W

-- What is written is read.
pub record IsPlace {W D : Type 0} (place : Place W D) : Type 0 where
  pub memory-put : (m : MemoryStore D) (w : W) → place.memory (place.put m w) ≡ m

module _ {W D : Type 0} (place : Place W D) where
  -- A method that changes the store.
  abbrev pub at_place : {A : Type 0} → (MemoryStore D → A × MemoryStore D) → W → A × W
  at_place f w = let (a, m) = f (place.memory w) in (a, place.put m w)

  abbrev pub memory_locker : Locker W
  memory_locker = record {
    acquire = λ ctx id owner ttl w. at_place (acquire id owner ttl (place.now w)) w;
    release = λ ctx id owner w. at_place (release id owner) w;
  }

  abbrev pub memory_store : Store W D
  memory_store = record {
    save = λ ctx exec w. at_place (save exec) w;
    get = λ ctx id w. (get id (place.memory w), w);
    locker = some memory_locker;
  }

  abbrev pub memory_lister : Lister W D
  memory_lister = record { list_incomplete = λ ctx w. (list_incomplete (place.memory w), w) }
