-- ===== src/Memory/Exclusion/Truth.antt =====
-- What owners may take to be true of the leases of store/memory/memory.go.
use mathlib.Core.Bool.{true≢false}
use go_orchestrator.Prelude.{
  ℕ, ◌<◌, String, ◌≡◌, ◌≢◌, ◌⊎◌, refl, sym, ap, subst, ◌∙◌, inl, inr, true, false, none, some,
  some_inj, List, str_eq, str_eq→eq, str_eq→ne, str_eq_refl, ne→str_eq, Bool-cases, arith, lt→ltb,
}
use go_orchestrator.Prelude.Int.{ℤ}
use go_orchestrator.Execution.{Execution}
use go_orchestrator.Memory.{
  MemoryStore, Lease, lookup, insert, save, acquire, release, blocks, holds, add_ttl,
}
use go_orchestrator.Memory.Leases.{granted}
use go_orchestrator.Memory.Laws.{lookup-insert_self, lookup-insert_other, lookup-delete_other}
use go_orchestrator.Memory.Exclusion.{
  System, update, Step, waits, grants, refuses, releases, saves, Reach, start, next,
}

abbrev Updated : String → String → String → String → ℕ → (String → String → ℕ) → Type 0
Updated id owner i o time deadline =
    (id ≡ i) × (owner ≡ o) × (update id owner time deadline i o ≡ time)
    ⊎ (id ≡ i → owner ≢ o) × (update id owner time deadline i o ≡ deadline i o)

update_cases :
    (id owner i o : String) (time : ℕ) (deadline : String → String → ℕ)
    → Updated id owner i o time deadline
update_cases id owner i o time deadline = elim (Bool-cases (str_eq id i)) [
  | inl p ↦ elim (Bool-cases (str_eq owner o)) [
    | inl q ↦ inl (str_eq→eq id i p, str_eq→eq owner o q, rw (p, q) refl)
    | inr q ↦ inr ((λ _. str_eq→ne owner o q), rw (p, q) refl)
  ]
  | inr p ↦ inr ((λ e. absurd (str_eq→ne id i p e)), rw p refl)
]

abbrev lease_of : String → ℕ → Lease
lease_of owner time = record { owner = owner; expires = time }

blocked :
    (owner o : String) (now time : ℕ)
    → owner ≢ o
    → now < time
    → blocks owner now (some (lease_of o time)) ≡ true
blocked owner o now time d l = rw (ne→str_eq o owner (λ e. d (sym e)), lt→ltb now time l) refl

module _ {D : Type 0} where
  -- Whoever may take it that it holds a lease is in the store, with the same deadline.
  abbrev IsTrue : System D → Type 0
  IsTrue s =
      (id owner : String)
      → s.clock < s.deadline id owner
      → lookup id s.store.leases ≡ some (lease_of owner (s.deadline id owner))

  -- `Acquire` succeeds: no one else holds the lease.
  granted_leases :
      (id owner : String) (ttl : ℤ) (now : ℕ) (s : MemoryStore D)
      → (acquire id owner ttl now s).0 ≡ (true, none)
      → (blocks owner now (lookup id s.leases) ≡ false)
        × ((acquire id owner ttl now s).1.leases
            ≡ insert id (lease_of owner (add_ttl now ttl)) s.leases)
  unfolding acquire
  granted_leases id owner ttl now s h = elim (Bool-cases (blocks owner now (lookup id s.leases))) [
    | inl p ↦ absurd (granted id owner ttl now s h p)
    | inr p ↦ (p, rw p refl)
  ]

  grants-IsTrue :
      (s : System D) (id owner : String) (ttl : ℤ)
      → (acquire id owner ttl s.clock s.store).0 ≡ (true, none)
      → IsTrue s
      → IsTrue (record s {
        store = (acquire id owner ttl s.clock s.store).1;
        deadline = update id owner (add_ttl s.clock ttl) s.deadline;
      })
  grants-IsTrue s id owner ttl h true_now i o live =
      by (update_cases id owner i o (add_ttl s.clock ttl) s.deadline)
    where
      leases_after : List (String × Lease)
      leases_after = (acquire id owner ttl s.clock s.store).1.leases

      time : ℕ
      time = update id owner (add_ttl s.clock ttl) s.deadline i o

      free : blocks owner s.clock (lookup id s.store.leases) ≡ false
      free = (granted_leases id owner ttl s.clock s.store h).0

      same : leases_after ≡ insert id (lease_of owner (add_ttl s.clock ttl)) s.store.leases
      same = (granted_leases id owner ttl s.clock s.store h).1

      taken : Lease
      taken = lease_of owner (add_ttl s.clock ttl)

      kept :
          (id ≡ i → owner ≢ o)
          → s.clock < s.deadline i o
          → lookup i (insert id taken s.store.leases) ≡ some (lease_of o (s.deadline i o))
      kept d l = elim (Bool-cases (str_eq id i)) [
        | inl p ↦
            let e = str_eq→eq id i p in
            absurd (
              true≢false (
                sym (blocked owner o s.clock (s.deadline i o) (d e) l)
                ∙ ap (blocks owner s.clock) (sym (true_now i o l))
                ∙ subst (λ (k : String). blocks owner s.clock (lookup k s.store.leases) ≡ false) e
                    free))
        | inr p ↦ lookup-insert_other id i taken s.store.leases (str_eq→ne id i p) ∙ true_now i o l
      ]

      by :
          Updated id owner i o (add_ttl s.clock ttl) s.deadline
          → lookup i leases_after ≡ some (lease_of o time)
      by (inl (p, q, e)) =
          ap (lookup i) same
          ∙ subst (λ (k : String). lookup k (insert id taken s.store.leases) ≡ some taken) p
              (lookup-insert_self id taken s.store.leases)
          ∙ ap (λ (k : String). some (lease_of k (add_ttl s.clock ttl))) q
          ∙ ap (λ (t : ℕ). some (lease_of o t)) (sym e)
      by (inr (d, e)) =
          ap (lookup i) same
          ∙ kept d (subst (λ (t : ℕ). s.clock < t) e live)
          ∙ ap (λ (t : ℕ). some (lease_of o t)) (sym e)

  refuses-leases :
      (id owner : String) (ttl : ℤ) (now : ℕ) (s : MemoryStore D)
      → (acquire id owner ttl now s).0 ≡ (false, none)
      → (acquire id owner ttl now s).1 ≡ s
  unfolding acquire
  refuses-leases id owner ttl now s h = ground arith

  release-leases :
      (id owner : String) (s : MemoryStore D) (i o : String) (time : ℕ)
      → (id ≡ i → owner ≢ o)
      → lookup i s.leases ≡ some (lease_of o time)
      → lookup i (release id owner s).1.leases ≡ some (lease_of o time)
  unfolding release
  release-leases id owner s i o time d h = elim (Bool-cases (holds owner (lookup id s.leases))) [
    | inl p ↦ rw p (elim (Bool-cases (str_eq id i)) [
      | inl q ↦
          let e = str_eq→eq id i q in
          absurd (
            d e (
              sym (
                str_eq→eq o owner (
                  ap (holds owner) (sym h)
                  ∙ subst (λ (k : String). holds owner (lookup k s.leases) ≡ true) e p))))
      | inr q ↦ lookup-delete_other id i s.leases (str_eq→ne id i q) ∙ h
    ])
    | inr p ↦ rw p h
  ]

  releases-IsTrue :
      (s : System D) (id owner : String)
      → IsTrue s
      → IsTrue (record s {
        store = (release id owner s.store).1;
        deadline = update id owner 0 s.deadline;
      })
  releases-IsTrue s id owner true_now i o live = by (update_cases id owner i o 0 s.deadline)
    where
      by :
          Updated id owner i o 0 s.deadline
          → lookup i (release id owner s.store).1.leases
            ≡ some (lease_of o (update id owner 0 s.deadline i o))
      by (inl (p, q, e)) = elim (subst (λ (t : ℕ). s.clock < t) e live) [ ]
      by (inr (d, e)) =
          release-leases id owner s.store i o (s.deadline i o) d
            (true_now i o (subst (λ (t : ℕ). s.clock < t) e live))
          ∙ ap (λ (t : ℕ). some (lease_of o t)) (sym e)

  save-leases : (x : Execution D) (s : MemoryStore D) → (save x s).1.leases ≡ s.leases
  unfolding save
  save-leases x s = ground arith

  Step-IsTrue : (s t : System D) → Step s t → IsTrue s → IsTrue t
  Step-IsTrue s t (waits n) h = λ id owner live. h id owner (omega (arith, live))
  Step-IsTrue s t (grants id owner ttl g) h = grants-IsTrue s id owner ttl g h
  Step-IsTrue s t (refuses id owner ttl g) h = λ i o live.
      ap (λ (m : MemoryStore D). lookup i m.leases) (refuses-leases id owner ttl s.clock s.store g)
      ∙ h i o live
  Step-IsTrue s t (releases id owner) h = releases-IsTrue s id owner h
  Step-IsTrue s t (saves x) h = λ i o live. ap (lookup i) (save-leases x s.store) ∙ h i o live

  reach-IsTrue : (s : System D) → Reach s → IsTrue s
  reach-IsTrue s (start time) = λ id owner live. elim live [ ]
  reach-IsTrue s (next u t h step) = Step-IsTrue u t step (reach-IsTrue u h)

  -- Whatever owners do to a store that was empty at first, in any order and with any times in between,
  -- at most one of them can take it at any time that it holds the lease of an execution; and while
  -- one can, `Acquire` refuses everyone else and would renew the lease for that one.
  pub lease_excludes :
      (s : System D) (id a : String)
      → Reach s
      → s.clock < s.deadline id a
      → ((b : String) → s.clock < s.deadline id b → a ≡ b)
        × ((b : String) (ttl : ℤ)
            → a ≢ b
            → acquire id b ttl s.clock s.store ≡ ((false, none), s.store))
        × ((ttl : ℤ) → (acquire id a ttl s.clock s.store).0 ≡ (true, none))
  unfolding acquire
  lease_excludes s id a h live =
      let here = reach-IsTrue s h id a live in
      (
        (λ b live'.
            ap (λ (l : Lease). l.owner) (some_inj (sym here ∙ reach-IsTrue s h id b live'))),
        (λ b ttl d. rw (here, blocked b a s.clock (s.deadline id a) (λ e. d (sym e)) live) refl),
        (λ ttl. rw (here, str_eq_refl a) refl),
      )
