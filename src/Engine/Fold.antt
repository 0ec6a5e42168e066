-- ===== src/Engine/Fold.antt =====
-- A saga as a function: what its steps compute, one after the other, with nothing of execute.go. The
-- children show that Execute computes it when nothing but a step can fail.
pub mod Attempts
pub mod Forward
pub mod Execute
use go_orchestrator.Prelude.{ℕ, String, ◌≡◌, true, Option, none, some, List, [], ◌∷◌}
use go_orchestrator.Prelude.Int.{ℤ, pos, leb_ℤ}
use go_orchestrator.Status.{Status}
use go_orchestrator.Errors.{Error, step_error}
use go_orchestrator.Context.{Context, ended}
use go_orchestrator.Interfaces.{Runtime}
use go_orchestrator.Execution.{Execution}
use go_orchestrator.Definition.{StepDefinition, Definition, ActionFunc}
use go_orchestrator.Engine.Kept.{OnSome}
use go_orchestrator.Engine.Landing.{Names}

-- A step as a function of the data.
pub record PureStep (D : Type 0) : Type 0 where
  pub name : String
  pub act : Option D → Option D × Option Error

module _ {D : Type 0} where
  -- The rest of the saga after a step: nothing after an error.
  abbrev pub continue :
      String
      → Option D × Option Error
      → (Option D → Option D × Option Error)
      → Option D × Option Error
  continue name (out, none) rest = rest out
  continue name (out, some e) rest = (none, some (step_error name e))

  -- The output of the saga, or the error of the first step that fails.
  unfoldable pub evaluate : List (PureStep D) → Option D → Option D × Option Error
  evaluate [] x = (x, none)
  evaluate (p ∷ rest) x = continue p.name (p.act x) (evaluate rest)

module _ {W D : Type 0} where
  -- The action of a step computes this function whatever the world and the context are, and it has no
  -- timeout. Its retries may be of any kind.
  pub record IsPure (step : StepDefinition W D) (p : PureStep D) : Type 0 where
    pub named : step.name ≡ p.name
    pub computes :
        OnSome
          (λ (f : ActionFunc W D). (ctx : Context) (x : Option D) (w : W) → (f ctx x w).0 ≡ p.act x)
          step.action
    pub untimed : leb_ℤ step.timeout (pos 0) ≡ true

  abbrev pub ArePure : List (StepDefinition W D) → List (PureStep D) → Type 0
  ArePure [] [] = Unit
  ArePure (s ∷ steps) (p ∷ ps) = IsPure s p × ArePure steps ps
  ArePure _ _ = ⊥

-- The caller's context never ends.
abbrev pub IsCalm : {W : Type 0} → Runtime W → Type 0
IsCalm {W = W} r = (w : W) → r.caller_ended w ≡ none

-- A context that ends only with the caller's.
abbrev pub IsOpen : Context → Type 0
IsOpen ctx = (now : ℕ) → ended none now ctx ≡ none
