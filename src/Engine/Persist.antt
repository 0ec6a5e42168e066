-- ===== src/Engine/Persist.antt =====
-- execute.go: save, transitionExec and transitionStep. Every change of a status goes through these.
use Prim.Native.String.{◌++◌}
use go_orchestrator.Prelude.{ℕ, String, Bool, true, false, Option, none, some}
use go_orchestrator.Status.{Status, StepStatus}
use go_orchestrator.Errors.{Error, Format, wrap, execution_locked}
use go_orchestrator.Context.{Context}
use go_orchestrator.Interfaces.{Locker}
use go_orchestrator.Execution.{Execution, StepExecution, transition, step_transition}
use go_orchestrator.Engine.Monad.{
  M, Run, ◌>>=◌, ◌>>◌, pure, throw, rejected, ask_outside, record_call, saved, leased, now,
  get_exec, put_exec, get_step, put_step, unless_error,
}
use go_orchestrator.Engine.Notify.{notify_exec, notify_step}

-- "saga: failed to … execution "id": err".
abbrev pub failed_to : Format → String → String → Error → Error
failed_to f what id e = wrap (what ++ f.quote id) e

-- How the two results of `Acquire` are read.
abbrev pub lease_error : Format → String → String → Bool × Option Error → Option Error
lease_error f what id (acquired, some e) = some (failed_to f what id e)
lease_error f what id (true, none) = none
lease_error f what id (false, none) = some (execution_locked id)

abbrev pub save_error : Format → String → Option Error → Option Error
save_error f id none = none
save_error f id (some e) = some (failed_to f "saga: failed to persist execution " id e)

module _ {W D : Type 0} where
  -- `locker.Acquire(ctx, exec.ID, rs.lockOwner, rs.lockTTL)` and the tests of its results.
  unfoldable pub lease : Run W D → Context → String → Locker W → M W D (Option Error)
  lease rs ctx what l = do
    exec ← get_exec
    result ← ask_outside (l.acquire ctx exec.id rs.lock_owner rs.definition.lock_ttl)
    let e = lease_error rs.runtime.format what exec.id result
    record_call (leased exec.id e)
    pure e

  -- `rs.store.Save(ctx, exec)` and the test of its result.
  unfoldable pub write : Run W D → Context → M W D (Option Error)
  write rs ctx = do
    exec ← get_exec
    result ← ask_outside (rs.definition.store.save ctx exec)
    let e = save_error rs.runtime.format exec.id result
    record_call (saved exec e)
    pure e

  -- `save`.
  unfoldable pub save : Run W D → Context → M W D (Option Error)
  unfolding lease write
  save rs ctx = elim rs.locker [
    | none ↦ write rs ctx
    | some l ↦ lease rs ctx "saga: failed to renew execution lock for " l >>= λ e.
        unless_error e (write rs ctx)
  ]

  -- A rejected transition panics.
  abbrev pub accept_exec : Execution D × Option Error → M W D (Unit {0})
  accept_exec (exec, none) = put_exec (λ _. exec)
  accept_exec (exec, some e) = throw (rejected e)

  abbrev pub accept_step : ℕ → StepExecution D × Option Error → M W D (Unit {0})
  accept_step i (step, none) = put_step i step
  accept_step i (step, some e) = throw (rejected e)

  -- `transitionExec`.
  unfoldable pub transition_exec : Run W D → Context → Status → M W D (Option Error)
  transition_exec rs ctx to = do
    exec ← get_exec
    at ← now rs.runtime
    accept_exec (transition exec to at)
    e ← save rs ctx
    unless_error e (do notify_exec rs ctx to; pure none)

  -- `transitionStep`, for the step at an index.
  unfoldable pub transition_step : Run W D → Context → ℕ → StepStatus → M W D (Option Error)
  transition_step rs ctx i to = do
    step ← get_step i
    at ← now rs.runtime
    accept_step i (step_transition step to at)
    e ← save rs ctx
    unless_error e (do step' ← get_step i; notify_step rs ctx step' to; pure none)
