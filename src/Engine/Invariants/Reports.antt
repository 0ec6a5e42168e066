-- ===== src/Engine/Invariants/Reports.antt =====
-- The events of a run of Execute of execute.go, and the saves that they report.
use go_orchestrator.Prelude.{◌≡◌, refl, ap, ℕ, Option, List, [], ◌∷◌, ◌++◌, All}
use go_orchestrator.Context.{Context}
use go_orchestrator.Events.{Event}
use go_orchestrator.Interfaces.{Runtime}
use go_orchestrator.Execution.{Execution}
use go_orchestrator.Definition.{Definition}
use go_orchestrator.Engine.Monad.{Run, Call}
use go_orchestrator.Engine.Resume.{execute}
use go_orchestrator.Engine.Kept.{Identity, IsNewest, Reports, IsKept}
use go_orchestrator.Engine.Kept.Execute.{Free, IsApart-Free, execute-Good}

module _ {D : Type 0} where
  -- The last call before the event was a save, without an error, of an execution that the event
  -- reports, and the calls before the event are the first of all calls.
  abbrev pub IsBacked : List (Call D) → Event × List (Call D) → Type 0
  IsBacked calls (ev, before) =
      (x : Execution D) × (later : List (Call D)) × IsNewest x before
      × Reports x ev
      × (calls ≡ later ++ before)

  later-IsBacked :
      (c : Call D) (calls : List (Call D)) (l : List (Event × List (Call D)))
      → All (IsBacked calls) l
      → All (IsBacked (c ∷ calls)) l
  later-IsBacked c calls [] h = tt
  later-IsBacked c calls (p ∷ l) h =
      let (x, later, newest, reports, e) = h.0 in
      ((x, c ∷ later, newest, reports, ap (λ k. c ∷ k) e), later-IsBacked c calls l h.1)

module _ {W D : Type 0} where
  IsBacked-IsKept :
      (rs : Run W D) (v : Identity D) → IsKept rs v Free (λ s. All (IsBacked s.calls) s.events)
  IsBacked-IsKept rs v = record {
    world = record {
      apart = IsApart-Free rs.runtime rs.definition rs.locker;
      moves = λ s w m h. h;
    };
    allocates = λ s p h. h;
    changes = λ s x e e' m h. h;
    publishes = λ s ev e n r h. ((s.exec, [], n, r, refl), h);
    leases = λ s l ctx what e at h. later-IsBacked _ s.calls s.events h;
    saves = λ s ctx e l h. later-IsBacked _ s.calls s.events h;
    acts = λ s name ctx x e i o h. later-IsBacked _ s.calls s.events h;
    undoes = λ s name ctx x e i o h. later-IsBacked _ s.calls s.events h;
  }

  -- Each event that a run of `Execute` publishes, however the run ends, comes directly after a save:
  -- the last call before the event was a save, without an error, of an execution such that the event
  -- reports the status of it or of one of its steps, with its ID, its saga's name and its error.
  pub execute_events :
      (r : Runtime W) (d : Definition W D) (ctx : Context) (input : Option D) (pointer : ℕ) (w : W)
      → let s = (execute r d ctx input pointer w).1.1 in All (IsBacked s.calls) s.events
  execute_events r d ctx input pointer w =
      (execute-Good r d Free (λ s. All (IsBacked s.calls) s.events) ctx input pointer w (λ w. tt)
        (λ owner. IsBacked-IsKept _ _) tt).1
