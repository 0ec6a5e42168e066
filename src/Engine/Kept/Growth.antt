-- ===== src/Engine/Kept/Growth.antt =====
-- The functions of compensate of execute.go only add to the calls that have been made.
use go_orchestrator.Prelude.{ℕ, ◌≡◌, refl, ap, Option, List, [], ◌∷◌, ◌++◌}
use go_orchestrator.Status.{StepStatus}
use go_orchestrator.Errors.{Error}
use go_orchestrator.Context.{Context}
use go_orchestrator.Execution.{StepExecution}
use go_orchestrator.Engine.Monad.{Run, State, Call}
use go_orchestrator.Engine.Compensate.{settle, begin_undo, compensate_step, compensate_loop}
use go_orchestrator.Engine.Kept.{Identity, identity, IsKept}
use go_orchestrator.Engine.Kept.Undo.{
  settle-Keeps, begin_undo-Keeps, compensate_step-Keeps, compensate_loop-Keeps,
}
use go_orchestrator.Engine.Kept.Execute.{Free, IsApart-Free}

-- The first calls are these.
abbrev pub Extends : {D : Type 0} → List (Call D) → List (Call D) → Type 0
Extends {D} before calls = (later : List (Call D)) × (calls ≡ later ++ before)

once_more :
    {D : Type 0} (c : Call D) (before calls : List (Call D))
    → Extends before calls
    → Extends before (c ∷ calls)
once_more c before calls (later, e) = (c ∷ later, ap (λ l. c ∷ l) e)

module _ {W D : Type 0} where
  Extends-IsKept :
      (rs : Run W D) (v : Identity D) (before : List (Call D))
      → IsKept rs v Free (λ s. Extends before s.calls)
  Extends-IsKept rs v before = record {
    world = record {
      apart = IsApart-Free rs.runtime rs.definition rs.locker;
      moves = λ s w m h. h;
    };
    allocates = λ s p h. h;
    changes = λ s x e e' m h. h;
    publishes = λ s ev e n r h. h;
    leases = λ s l ctx what e at h. once_more _ before s.calls h;
    saves = λ s ctx e l h. once_more _ before s.calls h;
    acts = λ s name ctx x e i o h. once_more _ before s.calls h;
    undoes = λ s name ctx x e i o h. once_more _ before s.calls h;
  }

  pub settle-Extends :
      (rs : Run W D) (ctx : Context) (i : ℕ) (c : Option Error) (s : State W D)
      → Extends s.calls (settle rs ctx i c s).1.calls
  settle-Extends rs ctx i c s =
      ((settle-Keeps (Extends-IsKept rs (identity s.exec) s.calls) ctx i c).apply s
        (refl, ([], refl))).1

  pub begin_undo-Extends :
      (rs : Run W D) (ctx : Context) (i : ℕ) (st : StepStatus) (s : State W D)
      → Extends s.calls (begin_undo rs ctx i st s).1.calls
  begin_undo-Extends rs ctx i st s =
      ((begin_undo-Keeps (Extends-IsKept rs (identity s.exec) s.calls) ctx i st).apply s
        (refl, ([], refl))).1

  pub compensate_step-Extends :
      (rs : Run W D) (ctx : Context) (i : ℕ) (x : StepExecution D) (s : State W D)
      → Extends s.calls (compensate_step rs ctx i x s).1.calls
  compensate_step-Extends rs ctx i x s =
      ((compensate_step-Keeps (Extends-IsKept rs (identity s.exec) s.calls) ctx i x).apply s
        (refl, ([], refl))).1

  pub compensate_loop-Extends :
      (rs : Run W D) (ctx : Context) (k : ℕ) (s : State W D)
      → Extends s.calls (compensate_loop k rs ctx s).1.calls
  compensate_loop-Extends rs ctx k s =
      ((compensate_loop-Keeps (Extends-IsKept rs (identity s.exec) s.calls) k ctx).apply s
        (refl, ([], refl))).1
