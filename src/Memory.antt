-- ===== src/Memory.antt =====
-- store/memory/memory.go: the in-memory store. The two maps are association lists with one entry for
-- each key; the mutex makes each method one step. A time is a number of nanoseconds.
pub mod Laws
pub mod Leases
pub mod Incomplete
pub mod Backend
pub mod Exclusion
use go_orchestrator.Prelude.{
  ℕ, ◌+◌, ◌-◌, String, Bool, true, false, not, ◌&&◌, Option, none, some, List, [], ◌∷◌, ltb, str_eq,
  if◌then◌else◌,
}
use go_orchestrator.Prelude.Int.{ℤ, pos, negsuc, pos_part, neg_part}
use go_orchestrator.Status.{is_terminal}
use go_orchestrator.Errors.{Error, message, execution_not_found}
use go_orchestrator.Execution.{Execution, clone}

-- A Go map with text keys.
module _ {V : Type 0} where
  unfoldable pub lookup : String → List (String × V) → Option V
  lookup k [] = none
  lookup k ((j, v) ∷ m) = if str_eq j k then some v else lookup k m

  unfoldable pub insert : String → V → List (String × V) → List (String × V)
  insert k v [] = (k, v) ∷ []
  insert k v ((j, w) ∷ m) = if str_eq j k then (k, v) ∷ m else (j, w) ∷ insert k v m

  unfoldable pub delete : String → List (String × V) → List (String × V)
  delete k [] = []
  delete k ((j, w) ∷ m) = if str_eq j k then delete k m else (j, w) ∷ delete k m

pub record Lease : Type 0 where
  pub owner : String
  pub expires : ℕ

pub record MemoryStore (D : Type 0) : Type 0 where
  pub data_map : List (String × Execution D)
  pub leases : List (String × Lease)

-- `now.Add(ttl)`, at zero or later.
abbrev pub add_ttl : ℕ → ℤ → ℕ
add_ttl now ttl = now + pos_part ttl - neg_part ttl

-- The test of `Acquire` that refuses, on the lease that is there.
abbrev pub blocks : String → ℕ → Option Lease → Bool
blocks owner now none = false
blocks owner now (some l) = not (str_eq l.owner owner) && ltb now l.expires

abbrev pub holds : String → Option Lease → Bool
holds owner none = false
holds owner (some l) = str_eq l.owner owner

module _ {D : Type 0} where
  abbrev pub new : MemoryStore D
  new = record { data_map = []; leases = [] }

  -- `Save`. A nil execution cannot be written in the model.
  unfoldable pub save : Execution D → MemoryStore D → Option Error × MemoryStore D
  unfolding insert clone
  save exec s =
      if str_eq exec.id ""
      then (some (message "memory: cannot save an execution with an empty ID"), s)
      else (none, record s { data_map = insert exec.id (clone exec) s.data_map })

  -- What `Get` makes of the entry for the ID.
  abbrev pub found : Option (Execution D) → Option (Execution D) × Option Error
  unfolding clone
  found none = (none, some execution_not_found)
  found (some exec) = (some (clone exec), none)

  -- `Get`.
  unfoldable pub get : String → MemoryStore D → Option (Execution D) × Option Error
  unfolding lookup
  get id s = found (lookup id s.data_map)

  -- The loop of `ListIncomplete`.
  unfoldable pub incomplete : List (String × Execution D) → List (Execution D)
  unfolding clone
  incomplete [] = []
  incomplete ((id, exec) ∷ rest) =
      if is_terminal exec.status then incomplete rest else clone exec ∷ incomplete rest

  -- `ListIncomplete`, in the order of the model's list: Go's map has none.
  unfoldable pub list_incomplete : MemoryStore D → List (Execution D) × Option Error
  unfolding incomplete
  list_incomplete s = (incomplete s.data_map, none)

  -- `Acquire` at a time.
  unfoldable pub acquire :
      String → String → ℤ → ℕ → MemoryStore D → (Bool × Option Error) × MemoryStore D
  unfolding lookup insert
  acquire id owner ttl now s =
      if blocks owner now (lookup id s.leases) then ((false, none), s) else (
        (true, none),
        record s {
          leases = insert id (record { owner = owner; expires = add_ttl now ttl }) s.leases;
        },
      )

  -- `Release`.
  unfoldable pub release : String → String → MemoryStore D → Option Error × MemoryStore D
  unfolding lookup delete
  release id owner s =
      if holds owner (lookup id s.leases)
      then (none, record s { leases = delete id s.leases })
      else (none, s)
