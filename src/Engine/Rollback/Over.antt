-- ===== src/Engine/Rollback/Over.antt =====
-- How compensate of execute.go leaves a step, and the call that this follows.
use mathlib.Core.List.{append_assoc}
use go_orchestrator.Prelude.{sym, List, ◌∷◌, ◌++◌, ◌≡◌, ap, ◌∙◌, ◌⊎◌, Option, none, some}
use go_orchestrator.Status.{StepStatus}
use go_orchestrator.Errors.{Format, Error, error_text}
use go_orchestrator.Context.{Context}
use go_orchestrator.Execution.{StepExecution}
use go_orchestrator.Engine.Monad.{Call, undone}
use go_orchestrator.Engine.Kept.Growth.{Extends}

-- Whether there is anything to undo.
abbrev pub IsOpen : StepStatus → Type 0
IsOpen st = (st ≡ StepStatus.succeeded) ⊎ (st ≡ StepStatus.compensating)

-- The step as its compensation leaves it, by the error that it gave.
abbrev pub IsMarked : {D : Type 0} → Format → Option Error → StepExecution D → Type 0
IsMarked f none y = y.status ≡ StepStatus.compensated
IsMarked f (some c) y = (y.status ≡ StepStatus.compensation_failed) × (y.error ≡ error_text f c)

-- Among the calls made after the first ones is one of the compensating action of `x`, with the output
-- of `x`, and `y` is marked by the error that this call gave.
abbrev pub IsOver :
    {D : Type 0}
    → Format
    → List (Call D)
    → List (Call D)
    → StepExecution D
    → StepExecution D
    → Type 0
IsOver {D} f before calls x y =
    (later earlier : List (Call D)) × (ctx : Context) × (c : Option Error) × (calls
      ≡ later ++ (undone x.name ctx x.output c ∷ (earlier ++ before)))
    × IsMarked f c y

module _ {D : Type 0} where
  -- The calls may begin earlier, and the step may be read before it was marked.
  pub sooner-IsOver :
      (f : Format) (first before calls : List (Call D)) (x x' y : StepExecution D)
      → Extends first before
      → x'.name ≡ x.name
      → x'.output ≡ x.output
      → IsOver f before calls x' y
      → IsOver f first calls x y
  sooner-IsOver f first before calls x x' y (more, e) name out (later, earlier, ctx, c, at, m) = (
    later,
    earlier ++ more,
    ctx,
    c,
    at
        ∙ ap (λ l. later ++ (undone x'.name ctx x'.output c ∷ (earlier ++ l))) e
        ∙ ap (λ l. later ++ (undone x'.name ctx x'.output c ∷ l))
            (sym (append_assoc earlier more first))
        ∙ ap (λ n. later ++ (undone n ctx x'.output c ∷ ((earlier ++ more) ++ first))) name
        ∙ ap (λ o. later ++ (undone x.name ctx o c ∷ ((earlier ++ more) ++ first))) out,
    m,
  )

  -- The calls may go on.
  pub longer-IsOver :
      (f : Format) (before calls more : List (Call D)) (x y : StepExecution D)
      → Extends calls more
      → IsOver f before calls x y
      → IsOver f before more x y
  longer-IsOver f before calls more x y (after_, e) (later, earlier, ctx, c, at, m) = (
    after_ ++ later,
    earlier,
    ctx,
    c,
    e
        ∙ ap (λ l. after_ ++ l) at
        ∙ sym (append_assoc after_ later (undone x.name ctx x.output c ∷ (earlier ++ before))),
    m,
  )
