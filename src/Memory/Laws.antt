-- ===== src/Memory/Laws.antt =====
-- The in-memory store of store/memory/memory.go: what is read after a write, and what
-- ListIncomplete finds.
use go_orchestrator.Prelude.{
  ℕ, String, ◌≡◌, ◌≢◌, refl, ap, ◌∙◌, inl, inr, Option, none, some, List, [], ◌∷◌, map, str_eq,
  str_eq→eq, str_eq_refl, ne→str_eq, if◌then◌else◌, Bool-cases,
}
use go_orchestrator.Execution.{Execution, clone, clone_step, StepExecution, cloned_time}
use go_orchestrator.Memory.{MemoryStore, lookup, insert, delete, save, get, found}

module _ {V : Type 0} where
  pub lookup-insert_self :
      (k : String) (v : V) (m : List (String × V)) → lookup k (insert k v m) ≡ some v
  unfolding lookup insert
  lookup-insert_self k v [] = rw (str_eq_refl k) refl
  lookup-insert_self k v ((j, w) ∷ m) = elim (Bool-cases (str_eq j k)) [
    | inl p ↦ rw (p, str_eq_refl k) refl
    | inr p ↦ rw (p, p) (lookup-insert_self k v m)
  ]

  pub lookup-insert_other :
      (k k' : String) (v : V) (m : List (String × V))
      → k ≢ k'
      → lookup k' (insert k v m) ≡ lookup k' m
  unfolding lookup insert
  lookup-insert_other k k' v [] d = rw (ne→str_eq k k' d) refl
  lookup-insert_other k k' v ((j, w) ∷ m) d = elim (Bool-cases (str_eq j k)) [
    | inl p ↦ rw (p, ne→str_eq k k' d, str_eq→eq j k p, ne→str_eq k k' d) refl
    | inr p ↦ rw p (ap (λ o. if str_eq j k' then some w else o) (lookup-insert_other k k' v m d))
  ]

  pub lookup-delete_self : (k : String) (m : List (String × V)) → lookup k (delete k m) ≡ none
  unfolding lookup delete
  lookup-delete_self k [] = refl
  lookup-delete_self k ((j, w) ∷ m) = elim (Bool-cases (str_eq j k)) [
    | inl p ↦ rw p (lookup-delete_self k m)
    | inr p ↦ rw (p, p) (lookup-delete_self k m)
  ]

  pub lookup-delete_other :
      (k k' : String) (m : List (String × V)) → k ≢ k' → lookup k' (delete k m) ≡ lookup k' m
  unfolding lookup delete
  lookup-delete_other k k' [] d = refl
  lookup-delete_other k k' ((j, w) ∷ m) d = elim (Bool-cases (str_eq j k)) [
    | inl p ↦ rw (p, str_eq→eq j k p, ne→str_eq k k' d) (lookup-delete_other k k' m d)
    | inr p ↦ rw p (ap (λ o. if str_eq j k' then some w else o) (lookup-delete_other k k' m d))
  ]

cloned_time_lem : (t : Option ℕ) → cloned_time t ≡ t
cloned_time_lem none = refl
cloned_time_lem (some t) = refl

module _ {D : Type 0} where
  clone_step_lem : (s : StepExecution D) → clone_step s ≡ s
  clone_step_lem s =
      rw
        (
          cloned_time_lem s.started_at,
          cloned_time_lem s.completed_at,
          cloned_time_lem s.compensation_started_at,
          cloned_time_lem s.compensated_at,
        )
        refl

  clone_steps_lem : (l : List (StepExecution D)) → map clone_step l ≡ l
  clone_steps_lem [] = refl
  clone_steps_lem (s ∷ l) = rw (clone_step_lem s, clone_steps_lem l) refl

  -- A clone is equal to the execution that it was made from.
  pub clone_lem : (e : Execution D) → clone e ≡ e
  unfolding clone
  clone_lem e =
      rw (clone_steps_lem e.steps, cloned_time_lem e.started_at, cloned_time_lem e.completed_at)
        refl

  -- A saved execution, whose ID is not empty, is what `get` returns, and `get` of another ID returns
  -- what it returned before. An execution with an empty ID is refused and nothing changes.
  pub save-get_lem :
      (x : Execution D) (s : MemoryStore D)
      → (x.id ≢ ""
          → ((save x s).0 ≡ none)
            × (get x.id (save x s).1 ≡ (some x, none))
            × ((id : String) → x.id ≢ id → get id (save x s).1 ≡ get id s))
        × (x.id ≡ "" → ((save x s).0 ≢ none) × ((save x s).1 ≡ s))
  unfolding save get
  save-get_lem x s = (
    λ d. rw (ne→str_eq x.id "" d) (
      refl,
      ap found (lookup-insert_self x.id (clone x) s.data_map)
          ∙ ap (λ e. (some e, none)) (clone_lem (clone x) ∙ clone_lem x),
      λ id d'. ap found (lookup-insert_other x.id id (clone x) s.data_map d'),
    ),
    λ p. rw p ((λ h. cc), refl),
  )
