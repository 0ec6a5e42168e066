-- ===== src/Memory/Leases.antt =====
-- The leases of store/memory/memory.go.
use go_orchestrator.Prelude.{
  ℕ, ◌≤◌, ◌<◌, String, ◌≡◌, ◌≢◌, refl, inl, inr, true, false, none, str_eq_refl, ne→str_eq, arith,
  Bool-cases, lt→ltb, le→ltb,
}
use go_orchestrator.Prelude.Int.{ℤ}
use go_orchestrator.Memory.{MemoryStore, lookup, acquire, release, blocks, holds, add_ttl}
use go_orchestrator.Memory.Laws.{lookup-insert_self, lookup-insert_other, lookup-delete_self}

module _ {D : Type 0} where
  pub granted :
      (id owner : String) (ttl : ℤ) (now : ℕ) (s : MemoryStore D)
      → (acquire id owner ttl now s).0 ≡ (true, none)
      → blocks owner now (lookup id s.leases) ≢ true
  unfolding acquire
  granted id owner ttl now s h p = ground arith

  -- After `acquire` has given a lease to `owner`, another owner is refused, and changes nothing,
  -- until the lease expires; the owner itself can renew it, and once it has expired another owner
  -- gets it. Leases of other executions are as they were.
  pub acquire_lem :
      (id owner other : String) (ttl ttl' : ℤ) (now later : ℕ) (s : MemoryStore D)
      → owner ≢ other
      → (acquire id owner ttl now s).0 ≡ (true, none)
      → (later < add_ttl now ttl
          → acquire id other ttl' later (acquire id owner ttl now s).1
            ≡ ((false, none), (acquire id owner ttl now s).1))
        × (add_ttl now ttl ≤ later
            → (acquire id other ttl' later (acquire id owner ttl now s).1).0 ≡ (true, none))
        × ((acquire id owner ttl' later (acquire id owner ttl now s).1).0 ≡ (true, none))
        × ((id' : String)
            → id ≢ id'
            → lookup id' (acquire id owner ttl now s).1.leases ≡ lookup id' s.leases)
  unfolding acquire
  acquire_lem id owner other ttl ttl' now later s d h =
      elim (Bool-cases (blocks owner now (lookup id s.leases))) [
        | inl p ↦ absurd (granted id owner ttl now s h p)
        | inr p ↦
            rw
              (
                p,
                lookup-insert_self id (record { owner = owner; expires = add_ttl now ttl })
                    s.leases,
              )
              (
                (λ l. rw (ne→str_eq owner other d, lt→ltb later (add_ttl now ttl) l) refl),
                (λ l. rw (ne→str_eq owner other d, le→ltb later (add_ttl now ttl) l) refl),
                rw (str_eq_refl owner) refl,
                (λ id' d'. lookup-insert_other id id' _ s.leases d'),
              )
      ]

  -- `release` by an owner that holds the lease removes it, so that anyone can acquire it; by anyone
  -- else it changes nothing.
  pub release_lem :
      (id owner : String) (s : MemoryStore D)
      → (holds owner (lookup id s.leases) ≡ true
          → (lookup id (release id owner s).1.leases ≡ none)
            × ((other : String) (ttl : ℤ) (now : ℕ)
                → (acquire id other ttl now (release id owner s).1).0 ≡ (true, none)))
        × (holds owner (lookup id s.leases) ≡ false → (release id owner s).1 ≡ s)
  unfolding acquire release
  release_lem id owner s = (
    λ p.
        rw p (
          lookup-delete_self id s.leases,
          λ other ttl now. rw (lookup-delete_self id s.leases) refl,
        ),
    λ p. rw p refl,
  )
