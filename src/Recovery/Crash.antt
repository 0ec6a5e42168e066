-- ===== src/Recovery/Crash.antt =====
-- The resume of execute.go, after a crash, from what Execute has saved.
use go_orchestrator.Prelude.{All-get, ℕ, ◌≡◌, subst, false, Option, some, All, get_elem?, length}
use go_orchestrator.Status.{is_terminal}
use go_orchestrator.Errors.{Error}
use go_orchestrator.Context.{Context}
use go_orchestrator.Interfaces.{Runtime}
use go_orchestrator.Execution.{Execution}
use go_orchestrator.Definition.{Definition}
use go_orchestrator.Definition.Names.{HaveActions}
use go_orchestrator.Engine.Monad.{State, Outcome, ok, panic, saved}
use go_orchestrator.Engine.Resume.{execute}
use go_orchestrator.Engine.Shapes.{shape, IsSound}
use go_orchestrator.Engine.Logic.{Ensures, IsSafe}
use go_orchestrator.Engine.Safety.Execute.{EndsWell, resume_ends, execute_ends}
use go_orchestrator.Recovery.{resume_one}

module _ {W D : Type 0} where
  calls-IsSafe :
      (n : ℕ) (r : Outcome (Option Error) × State W D)
      → Ensures (EndsWell n) r
      → All (IsSafe n) r.1.calls
  calls-IsSafe n (ok e, s) h = h.0
  calls-IsSafe n (panic p, s) h = absurd h

module _ {W W' D : Type 0} where
  -- Every execution that a run of `Execute` saves, or tries to save, up to any point at which the
  -- process may crash, can be resumed by any definition with as many steps, each with an action, in
  -- any world: unless it was in a terminal status, the run does not panic, and it ends as in
  -- `execute_ends`.
  pub crash_recovery :
      (r : Runtime W) (d : Definition W D) (ctx : Context) (input : Option D) (pointer : ℕ) (w : W)
      (r' : Runtime W') (d' : Definition W' D) (ctx' : Context) (pointer' : ℕ) (w' : W') (k : ℕ)
      (x : Execution D) (e : Option Error)
      → HaveActions d.steps
      → HaveActions d'.steps
      → length d.steps ≡ length d'.steps
      → get_elem? (execute r d ctx input pointer w).1.1.calls k ≡ some (saved x e)
      → is_terminal x.status ≡ false
      → Ensures (EndsWell (length d'.steps)) (resume_one r' d' ctx' x pointer' w')
  crash_recovery r d ctx input pointer w r' d' ctx' pointer' w' k x e acts acts' same at live =
      let safe =
        calls-IsSafe (length d.steps) (execute r d ctx input pointer w).1
          (execute_ends r d ctx input pointer w acts) in
      resume_ends r' d' ctx' _ acts'
        (subst (λ n. IsSound n (shape x)) same
          (All-get (IsSafe (length d.steps)) _ k (saved x e) safe at))
        live tt
