-- ===== src/Engine/Resume.antt =====
-- execute.go: resume and Execute.
use Prim.Native.String.{◌++◌}
use go_orchestrator.Prelude.{ℕ, ◌+◌, String, Option, none, some, [], map, if◌then◌else◌}
use go_orchestrator.Prelude.Int.{pos, pos_part, leb_ℤ}
use go_orchestrator.Status.{Status, StepStatus}
use go_orchestrator.Errors.{Error, saga_timeout}
use go_orchestrator.Context.{Context, with_timeout_cause, without_cancel}
use go_orchestrator.Interfaces.{Runtime, Locker}
use go_orchestrator.Execution.{Execution, StepExecution}
use go_orchestrator.Definition.{StepDefinition, Definition, freeze}
use go_orchestrator.Engine.Monad.{
  M, Run, State, Outcome, ◌>>=◌, ◌>>◌, pure, ask_outside, record_call, saved, now, allocate,
  get_exec, unless_error,
}
use go_orchestrator.Engine.Notify.{span_context, start_span, end_span}
use go_orchestrator.Engine.Persist.{transition_exec, lease, save_error}
use go_orchestrator.Engine.Attempts.{SagaTimeout}
use go_orchestrator.Engine.Compensate.{resume_compensating}
use go_orchestrator.Engine.Running.{resume_running}

module _ {W D : Type 0} where
  -- The `switch` of `resume`.
  unfoldable pub dispatch : Run W D → Context → SagaTimeout → Status → M W D (Option Error)
  unfolding resume_running
  dispatch rs ctx late Status.completed = pure none
  dispatch rs ctx late Status.failed = pure none
  dispatch rs ctx late Status.compensated = pure none
  dispatch rs ctx late Status.compensation_failed = pure none
  dispatch rs ctx late Status.compensating = resume_compensating rs ctx
  dispatch rs ctx late Status.pending = do
    e ← transition_exec rs ctx Status.running
    unless_error e (resume_running rs ctx late)
  dispatch rs ctx late Status.running = resume_running rs ctx late

  -- The `switch` of `resume` with no timeout for the saga.
  unfoldable pub run_untimed : Run W D → Context → M W D (Option Error)
  unfolding dispatch
  run_untimed rs ctx = do exec ← get_exec; dispatch rs ctx none exec.status

  -- The `switch` of `resume` with the saga's timeout, which begins to run now.
  unfoldable pub run_with_timeout : Run W D → Context → M W D (Option Error)
  unfolding dispatch
  run_with_timeout rs ctx = do
    p ← allocate
    at ← now rs.runtime
    let late = saga_timeout p rs.definition.name rs.definition.timeout
    exec ← get_exec
    dispatch rs (with_timeout_cause ctx (at + pos_part rs.definition.timeout) late) (some (p, late))
        exec.status

  -- `if d.timeout > 0`.
  unfoldable pub run_timed : Run W D → Context → M W D (Option Error)
  unfolding run_untimed run_with_timeout
  run_timed rs ctx =
      if leb_ℤ rs.definition.timeout (pos 0) then run_untimed rs ctx else run_with_timeout rs ctx

  -- What `defer` runs, also after a panic: its own outcome is dropped.
  abbrev pub deferred :
      {A : Type 0} → M W D (Unit {0}) → Outcome A × State W D → Outcome A × State W D
  deferred last (a, s) = (a, (last s).1)

  -- The body of `resume` inside its span.
  unfoldable pub run_spanned : Run W D → Context → M W D (Option Error)
  unfolding start_span end_span run_timed
  run_spanned rs ctx s =
      let name : String = "saga:" ++ rs.definition.name in
      deferred (end_span rs ctx name)
        ((start_span rs ctx name >> run_timed rs (span_context rs ctx name)) s)

  -- `locker.Release(context.WithoutCancel(ctx), exec.ID, rs.lockOwner)`, its error ignored.
  unfoldable pub release : Run W D → Context → Locker W → M W D (Unit {0})
  release rs ctx l = do
    exec ← get_exec
    e ← ask_outside (l.release (without_cancel ctx) exec.id rs.lock_owner)
    pure tt

  -- `resume` with a `Locker`, once the lease was asked for.
  unfoldable pub run_leased : Run W D → Context → Locker W → Option Error → M W D (Option Error)
  unfolding run_spanned release
  run_leased rs ctx l (some e) = pure (some e)
  run_leased rs ctx l none = λ s. deferred (release rs ctx l) (run_spanned rs ctx s)

  abbrev pub run_state : Runtime W → Definition W D → Option (Locker W) → String → Run W D
  run_state r d l owner = record { runtime = r; definition = d; locker = l; lock_owner = owner }

  -- The body of `resume`, by the `Locker` that the store is, if it is one.
  unfoldable pub resume_with :
      Runtime W → Definition W D → Context → Option (Locker W) → M W D (Option Error)
  unfolding run_leased lease
  resume_with r d ctx none = run_spanned (run_state r d none "") ctx
  resume_with r d ctx (some l) = do
    owner ← ask_outside r.new_id
    let rs = run_state r d (some l) owner
    e ← lease rs ctx "saga: failed to acquire execution lock for " l
    run_leased rs ctx l e

  -- `resume`: the error it returns. The execution is the state's.
  unfoldable pub resume : Runtime W → Definition W D → Context → M W D (Option Error)
  unfolding resume_with
  resume r d ctx = resume_with r d ctx d.store.locker

  -- The step records of a new execution.
  abbrev pub fresh_step : StepDefinition W D → StepExecution D
  fresh_step step = record {
    name = step.name;
    status = StepStatus.pending;
    attempts = 0;
    output = none;
    error = "";
    started_at = none;
    completed_at = none;
    compensation_started_at = none;
    compensated_at = none;
  }

  -- The new execution of `Execute`.
  abbrev pub fresh : Definition W D → String → Option D → ℕ → Execution D
  fresh d id input at = record {
    id = id;
    saga_name = d.name;
    status = Status.pending;
    input = input;
    output = none;
    steps = map fresh_step d.steps;
    current_step = "";
    error = "";
    created_at = at;
    updated_at = at;
    started_at = none;
    completed_at = none;
  }

  -- `Execute` after the execution is built, with the first save.
  unfoldable pub start : Runtime W → Definition W D → Context → M W D (Option Error)
  unfolding resume
  start r d ctx = do
    exec ← get_exec
    result ← ask_outside (d.store.save ctx exec)
    let e = save_error r.format exec.id result
    record_call (saved exec e)
    unless_error e (resume r d ctx)

  -- The state in which `Execute` has built its execution. The addresses of new errors begin at
  -- `pointer`.
  abbrev pub initial : Runtime W → Definition W D → Option D → ℕ → W → State W D
  initial r d input pointer w =
      let w' = r.tick w in
      let (id, w'') = r.new_id w' in
      record {
        world = w'';
        exec = fresh d id input (r.now w');
        next_pointer = pointer;
        calls = [];
        events = [];
      }

  -- `Execute`: the definition afterwards, the outcome and the last state.
  unfoldable pub execute :
      Runtime W
      → Definition W D
      → Context
      → Option D
      → ℕ
      → W
      → Definition W D × (Outcome (Option Error) × State W D)
  unfolding start freeze
  execute r d ctx input pointer w =
      let d' = freeze d in (d', start r d' ctx (initial r d' input pointer w))
