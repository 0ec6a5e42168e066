-- ===== src/Recovery/Order.antt =====
-- The order in which Recover of recovery.go takes the executions.
use mathlib.Core.List.{Perm}
use mathlib.Core.List.Perm
use go_orchestrator.Prelude.{◌≤◌, ◌≡◌, inl, inr, true, false, List, [], ◌∷◌, All, arith, Bool-cases}
use go_orchestrator.Execution.{Execution}
use go_orchestrator.Recovery.{less, insert, sort}

module _ {D : Type 0} where
  -- Those created first come first.
  abbrev pub IsSorted : List (Execution D) → Type 0
  IsSorted [] = Unit
  IsSorted (a ∷ l) = All (λ b. a.created_at ≤ b.created_at) l × IsSorted l

  less-le : (a b : Execution D) → less a b ≡ true → a.created_at ≤ b.created_at
  unfolding less
  less-le a b h = ground arith

  not_less-le : (a b : Execution D) → less a b ≡ false → b.created_at ≤ a.created_at
  unfolding less
  not_less-le a b h = ground arith

  le-All :
      (a b : Execution D) (l : List (Execution D))
      → a.created_at ≤ b.created_at
      → All (λ c. b.created_at ≤ c.created_at) l
      → All (λ c. a.created_at ≤ c.created_at) l
  le-All a b [] h k = tt
  le-All a b (c ∷ l) h k = (omega (arith, h, k.0), le-All a b l h k.1)

  pub insert-All :
      (P : Execution D → Type 0) (a : Execution D) (l : List (Execution D))
      → P a
      → All P l
      → All P (insert a l)
  unfolding insert
  insert-All P a [] h k = (h, tt)
  insert-All P a (b ∷ l) h k = elim (Bool-cases (less b a)) [
    | inl p ↦ rw p (k.0, insert-All P a l h k.1)
    | inr p ↦ rw p (h, k)
  ]

  insert-IsSorted : (a : Execution D) (l : List (Execution D)) → IsSorted l → IsSorted (insert a l)
  unfolding insert
  insert-IsSorted a [] h = (tt, tt)
  insert-IsSorted a (b ∷ l) h = elim (Bool-cases (less b a)) [
    | inl p ↦ rw p (
      insert-All (λ c. b.created_at ≤ c.created_at) a l (less-le b a p) h.0,
      insert-IsSorted a l h.1,
    )
    | inr p ↦ let le = not_less-le b a p in rw p ((le, le-All a b l le h.0), h)
  ]

  insert-perm : (a : Execution D) (l : List (Execution D)) → Perm (insert a l) (a ∷ l)
  unfolding insert
  insert-perm a [] = Perm.rfl
  insert-perm a (b ∷ l) = elim (Bool-cases (less b a)) [
    | inl p ↦ rw p (Perm.trans (Perm.cons b (insert-perm a l)) (Perm.swap a b l))
    | inr p ↦ rw p Perm.rfl
  ]

  -- `sort` puts the executions in the order of their creation, and neither drops nor adds one.
  pub sort_lem : (l : List (Execution D)) → IsSorted (sort l) × Perm (sort l) l
  unfolding sort
  sort_lem [] = (tt, Perm.rfl)
  sort_lem (a ∷ l) =
      let (s, p) = sort_lem l in
      (insert-IsSorted a (sort l) s, Perm.trans (insert-perm a (sort l)) (Perm.cons a p))
