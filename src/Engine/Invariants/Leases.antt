-- ===== src/Engine/Invariants/Leases.antt =====
-- The lease that a run of execute.go holds when it saves.
use go_orchestrator.Prelude.{ℕ, Option, List, [], ◌∷◌}
use go_orchestrator.Errors.{Error}
use go_orchestrator.Context.{Context}
use go_orchestrator.Interfaces.{Runtime, Locker}
use go_orchestrator.Execution.{Execution}
use go_orchestrator.Definition.{Definition, freeze}
use go_orchestrator.Engine.Monad.{Run, Call, saved}
use go_orchestrator.Engine.Persist.{save_error}
use go_orchestrator.Engine.Resume.{run_state, execute}
use go_orchestrator.Engine.Kept.{Identity, IsLeased, IsKept}
use go_orchestrator.Engine.Kept.Execute.{Free, IsApart-Free, execute-Good}

module _ {W D : Type 0} where
  -- The call just before every save but the very first call was an acquisition or a renewal, without
  -- an error, of the lease of the execution that is saved, if there is a locker.
  abbrev pub AllLeased : Option (Locker W) → List (Call D) → Type 0
  AllLeased o [] = Unit
  AllLeased o (saved x e ∷ []) = Unit
  AllLeased o (saved x e ∷ c ∷ calls) = IsLeased o x.id (c ∷ calls) × AllLeased o (c ∷ calls)
  AllLeased o (c ∷ calls) = AllLeased o calls

  save-AllLeased :
      (o : Option (Locker W)) (x : Execution D) (e : Option Error) (calls : List (Call D))
      → IsLeased o x.id calls
      → AllLeased o calls
      → AllLeased o (saved x e ∷ calls)
  save-AllLeased o x e [] l h = tt
  save-AllLeased o x e (c ∷ calls) l h = (l, h)

  leases-IsKept :
      (rs : Run W D) (v : Identity D) → IsKept rs v Free (λ s. AllLeased rs.locker s.calls)
  leases-IsKept rs v = record {
    world = record {
      apart = IsApart-Free rs.runtime rs.definition rs.locker;
      moves = λ s w m h. h;
    };
    allocates = λ s p h. h;
    changes = λ s x e e' m h. h;
    publishes = λ s ev e n r h. h;
    leases = λ s l ctx what e at h. h;
    saves = λ s ctx e l h.
        save-AllLeased rs.locker s.exec
          (save_error rs.runtime.format s.exec.id (rs.definition.store.save ctx s.exec s.world).0)
          s.calls l h;
    acts = λ s name ctx x e i o h. h;
    undoes = λ s name ctx x e i o h. h;
  }

  -- With a store that is a `Locker`, a run of `Execute` makes no save after its first, the one that
  -- creates the execution, without having acquired or renewed the lease of that execution
  -- successfully in the call just before.
  pub execute_leased :
      (r : Runtime W) (d : Definition W D) (ctx : Context) (input : Option D) (pointer : ℕ) (w : W)
      → AllLeased d.store.locker (execute r d ctx input pointer w).1.1.calls
  unfolding freeze
  execute_leased r d ctx input pointer w =
      (execute-Good r d Free (λ s. AllLeased d.store.locker s.calls) ctx input pointer w (λ w. tt)
        (λ owner. leases-IsKept (run_state r (freeze d) d.store.locker owner) _) tt).1
