-- ===== src/Memory/Backend/Recovery.antt =====
-- What recovery.go finds in the store of store/memory/memory.go after a run of Execute of execute.go
-- that has stopped early.
use go_orchestrator.Prelude.{
  ℕ, zero, suc, String, ◌≡◌, sym, ap, ◌∙◌, inl, inr, false, Option, none, some, some_inj, List, [],
  ◌∷◌, All, length, get_elem?, str_eq, if◌then◌else◌, Bool-cases,
}
use go_orchestrator.Status.{is_terminal}
use go_orchestrator.Context.{Context}
use go_orchestrator.Interfaces.{Runtime}
use go_orchestrator.Execution.{Execution, clone}
use go_orchestrator.Definition.{Definition, with_store}
use go_orchestrator.Definition.Names.{HaveActions}
use go_orchestrator.Engine.Monad.{Call, saved, leased, acted, undone}
use go_orchestrator.Engine.Logic.{Ensures}
use go_orchestrator.Engine.Safety.Execute.{EndsWell}
use go_orchestrator.Engine.Kept.{IsApart}
use go_orchestrator.Recovery.{resume_one}
use go_orchestrator.Recovery.Crash.{crash_recovery}
use go_orchestrator.Memory.{lookup, incomplete, list_incomplete}
use go_orchestrator.Memory.Laws.{clone_lem}
use go_orchestrator.Memory.Incomplete.{IsIn, round_IsIn, live}
use go_orchestrator.Memory.Backend.{Place, IsPlace, memory_store}
use go_orchestrator.Memory.Backend.View.{latest, SameEntry}
use go_orchestrator.Memory.Backend.Runs.{run_in_memory, new_id_of, entry_view}

module _ {D : Type 0} where
  lookup-IsIn :
      (id : String) (x : Execution D) (m : List (String × Execution D))
      → lookup id m ≡ some x
      → is_terminal x.status ≡ false
      → IsIn x (incomplete m)
  unfolding lookup incomplete
  lookup-IsIn id x [] h live = cc
  lookup-IsIn id x ((j, e) ∷ m) h live = elim (Bool-cases (str_eq j id)) [
    | inl p ↦
        let same : e ≡ x = some_inj (ap (λ b. if b then some e else lookup id m) (sym p) ∙ h) in
        rw (same, live) (zero, ap some (clone_lem x))
    | inr p ↦
        round_IsIn x (is_terminal e.status) (clone e) (incomplete m)
          (lookup-IsIn id x m (ap (λ b. if b then some e else lookup id m) (sym p) ∙ h) live)
  ]

  -- What is under an ID that was new has been saved.
  latest-saved :
      (id : String) (x : Execution D) (calls : List (Call D))
      → latest id calls none ≡ some x
      → (k : ℕ) × (get_elem? calls k ≡ some (saved x none))
  latest-saved id x [] h = cc
  latest-saved id x (saved y none ∷ calls) h = elim (Bool-cases (str_eq y.id id)) [
    | inl p ↦
        let same : y ≡ x =
          some_inj (ap (λ b. if b then some y else latest id calls none) (sym p) ∙ h) in
        (zero, ap (λ (z : Execution D). some (saved z none)) same)
    | inr p ↦
        let (k, at) =
          latest-saved id x calls
            (ap (λ b. if b then some y else latest id calls none) (sym p) ∙ h) in
        (suc k, at)
  ]
  latest-saved id x (saved y (some e) ∷ calls) h =
      let (k, at) = latest-saved id x calls h in (suc k, at)
  latest-saved id x (leased i e ∷ calls) h = let (k, at) = latest-saved id x calls h in (suc k, at)
  latest-saved id x (acted name ctx y e ∷ calls) h =
      let (k, at) = latest-saved id x calls h in (suc k, at)
  latest-saved id x (undone name ctx y e ∷ calls) h =
      let (k, at) = latest-saved id x calls h in (suc k, at)

module _ {W W' D : Type 0} (place : Place W D) where
  -- As in `execute_view`, let nothing but the store's own methods, as the run calls them, change the
  -- entry of the new ID, which was not there before. If a run of `Execute` on the in-memory store has
  -- left an execution under that ID that is not in a terminal status, however the run has ended, then
  -- `ListIncomplete` lists that execution as it was left, and nothing in a terminal status, and any
  -- definition with as many steps, each with an action, can resume it in any world: that run does not
  -- panic, and it ends as in `execute_ends`.
  pub stopped_recovers :
      (r : Runtime W) (d : Definition W D) (ctx : Context) (input : Option D) (pointer : ℕ) (w : W)
      (r' : Runtime W') (d' : Definition W' D) (ctx' : Context) (pointer' : ℕ) (w' : W')
      (x : Execution D)
      → IsPlace place
      → IsApart (SameEntry place (new_id_of place r w)) r d none
      → ((u : W) → SameEntry place (new_id_of place r w) u (r.new_id u).1)
      → lookup (new_id_of place r w) (place.memory w).data_map ≡ none
      → HaveActions d.steps
      → HaveActions d'.steps
      → length d.steps ≡ length d'.steps
      → let s = (run_in_memory place r d ctx input pointer w).1 in
        lookup (new_id_of place r w) (place.memory s.world).data_map ≡ some x
        → is_terminal x.status ≡ false
        → IsIn x (list_incomplete (place.memory s.world)).0
          × All (λ e. is_terminal e.status ≡ false) (list_incomplete (place.memory s.world)).0
          × Ensures (EndsWell (length d'.steps)) (resume_one r' d' ctx' x pointer' w')
  unfolding list_incomplete
  stopped_recovers r d ctx input pointer w r' d' ctx' pointer' w' x lawful apart fresh absent acts
        acts' same at still =
      let s = (run_in_memory place r d ctx input pointer w).1 in
      let view = entry_view place r d ctx input pointer w lawful apart fresh in
      let (k, found) =
        latest-saved (new_id_of place r w) x s.calls
          (ap (latest (new_id_of place r w) s.calls) (sym absent) ∙ sym view ∙ at) in
      (
        lookup-IsIn (new_id_of place r w) x _ at still,
        live (place.memory s.world).data_map,
        crash_recovery r (with_store (memory_store place) d) ctx input pointer w r' d' ctx' pointer'
            w' k x none acts acts' same found still,
      )
