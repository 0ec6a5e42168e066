-- ===== src/Memory/Exclusion.antt =====
-- The leases of store/memory/memory.go with several owners at once: interleavings of Acquire,
-- Release and Save by anyone, with time passing in between.
pub mod Truth
use mathlib.Core.Bool.{true≢false}
use go_orchestrator.Prelude.{
  ℕ, zero, ◌+◌, ◌≤◌, ◌<◌, String, ◌≡◌, ◌≢◌, ◌⊎◌, refl, sym, ap, subst, ◌∙◌, inl, inr, Bool, true,
  false, not, ◌&&◌, Option, none, some, some_inj, List, str_eq, str_eq→eq, str_eq→ne, str_eq_refl,
  ne→str_eq, if◌then◌else◌, Bool-cases, arith, ltb, lt→ltb,
}
use go_orchestrator.Prelude.Int.{ℤ}
use go_orchestrator.Errors.{Error}
use go_orchestrator.Execution.{Execution}
use go_orchestrator.Memory.{
  MemoryStore, Lease, lookup, insert, delete, new, save, acquire, release, blocks, holds, add_ttl,
}
use go_orchestrator.Memory.Leases.{granted}
use go_orchestrator.Memory.Laws.{
  lookup-insert_self, lookup-insert_other, lookup-delete_self, lookup-delete_other,
}

-- The store, the time, and until when each owner may take it that it holds the lease of an execution,
-- by what its last `Acquire` or `Release` told it: 0 for not at all.
pub record System (D : Type 0) : Type 0 where
  pub clock : ℕ
  pub store : MemoryStore D
  pub deadline : String → String → ℕ

-- The deadlines after one of them has changed.
abbrev pub update : String → String → ℕ → (String → String → ℕ) → String → String → ℕ
update id owner time deadline i o = if str_eq id i && str_eq owner o then time else deadline i o

module _ {D : Type 0} where
  -- One thing happens.
  pub data Step (s : System D) : System D → Type 0 where
    waits : (n : ℕ) → Step s (record s { clock = s.clock + n })
    grants :
        (id owner : String) (ttl : ℤ)
        → (acquire id owner ttl s.clock s.store).0 ≡ (true, none)
        → Step s (record s {
          store = (acquire id owner ttl s.clock s.store).1;
          deadline = update id owner (add_ttl s.clock ttl) s.deadline;
        })
    refuses :
        (id owner : String) (ttl : ℤ)
        → (acquire id owner ttl s.clock s.store).0 ≡ (false, none)
        → Step s (record s { store = (acquire id owner ttl s.clock s.store).1 })
    releases :
        (id owner : String)
        → Step s (record s {
          store = (release id owner s.store).1;
          deadline = update id owner 0 s.deadline;
        })
    saves : (x : Execution D) → Step s (record s { store = (save x s.store).1 })

  -- What can come of an empty store.
  pub data Reach : System D → Type 0 where
    start : (time : ℕ) → Reach (record { clock = time; store = new; deadline = λ id owner. 0 })
    next : (s t : System D) → Reach s → Step s t → Reach t
