-- ===== src/Memory/Incomplete.antt =====
-- What ListIncomplete of store/memory/memory.go finds after a Save.
use go_orchestrator.Prelude.{
  ℕ, suc, String, ◌≡◌, ◌≢◌, refl, sym, ap, ◌∙◌, inl, inr, Bool, true, false, none, some, List, [],
  ◌∷◌, All, get_elem?, str_eq, str_eq→eq, ne→str_eq, if◌then◌else◌, Bool-cases, differ,
}
use go_orchestrator.Status.{is_terminal}
use go_orchestrator.Execution.{Execution, clone}
use go_orchestrator.Memory.{MemoryStore, lookup, insert, save, incomplete, list_incomplete}
use go_orchestrator.Memory.Laws.{clone_lem, lookup-insert_other}

module _ {D : Type 0} where
  -- Every entry has the ID of its execution for its key, and no key comes twice.
  abbrev pub IsKeyed : List (String × Execution D) → Type 0
  IsKeyed [] = Unit
  IsKeyed ((k, e) ∷ m) = (k ≡ e.id) × (lookup k m ≡ none) × IsKeyed m

  insert-IsKeyed :
      (x : Execution D) (m : List (String × Execution D)) → IsKeyed m → IsKeyed (insert x.id x m)
  unfolding insert lookup
  insert-IsKeyed x [] h = (refl, refl, tt)
  insert-IsKeyed x ((j, e) ∷ m) h = elim (Bool-cases (str_eq j x.id)) [
    | inl p ↦ rw p (refl, rw (sym (str_eq→eq j x.id p)) h.1, h.2)
    | inr p ↦
        rw p (h.0, lookup-insert_other x.id j x m (differ j x.id p) ∙ h.1, insert-IsKeyed x m h.2)
  ]

  -- One round of the loop of `incomplete`.
  round_All :
      (P : Execution D → Type 0) (b : Bool) (e : Execution D) (l : List (Execution D))
      → (b ≡ false → P e)
      → All P l
      → All P (if b then l else e ∷ l)
  round_All P true e l h a = a
  round_All P false e l h a = (h refl, a)

  absent :
      (k : String) (m : List (String × Execution D))
      → IsKeyed m
      → lookup k m ≡ none
      → All (λ e. e.id ≢ k) (incomplete m)
  unfolding lookup incomplete clone
  absent k [] h p = tt
  absent k ((j, e) ∷ m) h p = elim (Bool-cases (str_eq j k)) [
    | inl q ↦ cc
    | inr q ↦
        round_All (λ e. e.id ≢ k) (is_terminal e.status) (clone e) (incomplete m)
          (λ r i. differ j k q (sym i ∙ sym h.0))
          (absent k m h.2 (ap (λ b. if b then some e else lookup k m) (sym q) ∙ p))
  ]

  finished :
      (x : Execution D) (m : List (String × Execution D))
      → IsKeyed m
      → is_terminal x.status ≡ true
      → All (λ e. e.id ≢ x.id) (incomplete (insert x.id x m))
  unfolding lookup incomplete insert clone
  finished x [] h p = rw p tt
  finished x ((j, e) ∷ m) h p = elim (Bool-cases (str_eq j x.id)) [
    | inl q ↦ rw (q, p) (absent x.id m h.2 (ap (λ k. lookup k m) (sym (str_eq→eq j x.id q)) ∙ h.1))
    | inr q ↦ rw q (
        round_All (λ e. e.id ≢ x.id) (is_terminal e.status) (clone e) (incomplete (insert x.id x m))
          (λ r i. differ j x.id q (sym i ∙ sym h.0)) (finished x m h.2 p))
  ]

  -- `x` is in the list.
  abbrev pub IsIn : Execution D → List (Execution D) → Type 0
  IsIn x l = (k : ℕ) × (get_elem? l k ≡ some x)

  pub round_IsIn :
      (x : Execution D) (b : Bool) (e : Execution D) (l : List (Execution D))
      → IsIn x l
      → IsIn x (if b then l else e ∷ l)
  round_IsIn x true e l h = h
  round_IsIn x false e l h = (suc h.0, h.1)

  listed :
      (x : Execution D) (m : List (String × Execution D))
      → is_terminal x.status ≡ false
      → IsIn x (incomplete (insert x.id x m))
  unfolding incomplete insert
  listed x [] p = rw p (0, ap some (clone_lem x))
  listed x ((j, e) ∷ m) p = elim (Bool-cases (str_eq j x.id)) [
    | inl q ↦ rw (q, p) (0, ap some (clone_lem x))
    | inr q ↦ rw q (
        round_IsIn x (is_terminal e.status) (clone e) (incomplete (insert x.id x m)) (listed x m p))
  ]

  pub live :
      (m : List (String × Execution D)) → All (λ e. is_terminal e.status ≡ false) (incomplete m)
  unfolding incomplete clone
  live [] = tt
  live ((j, e) ∷ m) =
      round_All (λ e. is_terminal e.status ≡ false) (is_terminal e.status) (clone e) (incomplete m)
        (λ r. r) (live m)

  -- A save of an execution with an ID keeps the map in order, and decides whether `list_incomplete`
  -- gives the execution: not in a terminal status, it is there as it was saved; in a terminal status,
  -- nothing with its ID is there. Nothing in a terminal status is ever listed.
  pub save-list_incomplete :
      (x : Execution D) (s : MemoryStore D)
      → x.id ≢ ""
      → IsKeyed s.data_map
      → IsKeyed (save x s).1.data_map
        × (is_terminal x.status ≡ false → IsIn x (list_incomplete (save x s).1).0)
        × (is_terminal x.status ≡ true → All (λ e. e.id ≢ x.id) (list_incomplete (save x s).1).0)
        × All (λ e. is_terminal e.status ≡ false) (list_incomplete s).0
  unfolding save list_incomplete
  save-list_incomplete x s d h =
      rw (ne→str_eq x.id "" d, clone_lem x)
        (
          insert-IsKeyed x s.data_map h,
          (λ p. listed x s.data_map p),
          (λ p. finished x s.data_map h p),
          live s.data_map,
        )
