-- ===== src/Engine/Attempts.antt =====
-- execute.go: runStep, callAction, retryPolicyFor and sleepOrDone. One step's action and its
-- retries.
use Prim.Native.String.{◌++◌}
use go_orchestrator.Prelude.{
  ℕ, zero, suc, ◌+◌, String, Bool, true, false, ◌||◌, Option, none, some, if◌then◌else◌,
}
use go_orchestrator.Prelude.Int.{ℤ, pos, pos_part, leb_ℤ, inc64}
use go_orchestrator.Errors.{Error, pointer, step_error, step_timeout, error_is, is_non_retryable}
use go_orchestrator.Context.{Context, with_operation_id, with_timeout_cause, operation_id}
use go_orchestrator.Interfaces.{RetryPolicy}
use go_orchestrator.Definition.{StepDefinition}
use go_orchestrator.Engine.Monad.{
  M, Run, ◌>>=◌, ◌>>◌, pure, throw, nil_action, out_of_fuel, ask_outside, record_call, acted, now,
  get_exec, poll, allocate, get_step, put_step,
}
use go_orchestrator.Engine.Notify.{span_context, start_span, end_span}

-- Whether `errors.Is(cause, p)` for the error at an address; a nil error is none.
abbrev pub is_pointer : ℕ → Option Error → Bool
is_pointer p none = false
is_pointer p (some e) = error_is e (pointer p)

-- The saga's own timeout error, if a timeout is configured: its address and itself.
abbrev pub SagaTimeout : Type 0
SagaTimeout = Option (ℕ × Error)

-- The end of an attempt with a timeout of its own: a late result is discarded.
abbrev pub unless_late :
    {D : Type 0} → ℕ → Error → Option D × Option Error → Option Error → Option D × Option Error
unless_late p late result cause = if is_pointer p cause then (none, some late) else result

module _ {W D : Type 0} where
  -- `retryPolicyFor`.
  unfoldable pub retry_policy_for : Run W D → StepDefinition W D → RetryPolicy W
  retry_policy_for rs step = elim step.retry_policy [
    | none ↦ rs.definition.retry_policy
    | some policy ↦ policy
  ]

  -- The case of the `select` that was taken: the timer's, or that of `ctx.Done()`.
  abbrev pub woken : Run W D → Context → Bool → M W D (Option Error)
  woken rs ctx true = pure none
  woken rs ctx false = poll rs.runtime ctx

  -- `sleepOrDone`.
  unfoldable pub sleep_or_done : Run W D → Context → ℤ → M W D (Option Error)
  sleep_or_done rs ctx delay =
      if leb_ℤ delay (pos 0)
      then poll rs.runtime ctx
      else (ask_outside (rs.runtime.sleep ctx delay) >>= woken rs ctx)

  -- `step.Action(ctx, data)`. A step that `AddStep` accepted has an action.
  unfoldable pub invoke : StepDefinition W D → Context → Option D → M W D (Option D × Option Error)
  invoke step ctx data_in = elim step.action [
    | none ↦ throw nil_action
    | some action ↦ do
      result ← ask_outside (action ctx data_in)
      record_call (acted step.name ctx data_in result.1)
      pure result
  ]

  -- The two ways of `callAction` to call the action, inside the span.
  unfoldable pub call_timed :
      Run W D → Context → StepDefinition W D → ℤ → Option D → M W D (Option D × Option Error)
  unfolding invoke
  call_timed rs ctx step timeout data_in = do
    p ← allocate
    start ← now rs.runtime
    let late = step_timeout p step.name timeout
    let action_ctx = with_timeout_cause ctx (start + pos_part timeout) late
    result ← invoke step action_ctx data_in
    cause ← poll rs.runtime action_ctx
    pure (unless_late p late result cause)

  -- `callAction`.
  unfoldable pub call_action :
      Run W D
      → Context
      → String
      → StepDefinition W D
      → ℤ
      → Option D
      → M W D (Option D × Option Error)
  unfolding start_span end_span call_timed invoke
  call_action rs ctx op_id step timeout data_in = do
    let ctx' = with_operation_id ctx op_id
    let name = "step:" ++ step.name
    start_span rs ctx' name
    let ctx'' = span_context rs ctx' name
    result ←
        (if leb_ℤ timeout (pos 0)
          then invoke step ctx'' data_in
          else call_timed rs ctx'' step timeout data_in)
    end_span rs ctx' name
    pure result

  -- `stepExec.Attempts++`.
  abbrev pub count_attempt : ℕ → M W D (Unit {0})
  count_attempt i = do
    step_exec ← get_step i
    put_step i (record step_exec { attempts = inc64 step_exec.attempts })

  -- An error that comes with no result.
  abbrev pub fail : Error → M W D (Option D × Option Error)
  fail e = pure (none, some e)

  -- After the wait: the next attempt, or the reason why the context ended.
  abbrev pub waited :
      M W D (Option D × Option Error) → Option Error → M W D (Option D × Option Error)
  waited next none = next
  waited next (some e) = fail e

  -- The wait before the next attempt.
  unfoldable pub wait_then :
      Run W D
      → Context
      → StepDefinition W D
      → ℕ
      → M W D (Option D × Option Error)
      → M W D (Option D × Option Error)
  unfolding retry_policy_for sleep_or_done
  wait_then rs ctx step attempt next = do
    delay ← ask_outside ((retry_policy_for rs step).delay (pos (attempt + 1)))
    w ← sleep_or_done rs ctx delay
    waited next w

  -- The tests of `runStep` after a failed attempt, in their order.
  unfoldable pub retry :
      Run W D
      → Context
      → StepDefinition W D
      → ℕ
      → Error
      → M W D (Option D × Option Error)
      → Option Error
      → M W D (Option D × Option Error)
  unfolding wait_then
  retry rs ctx step attempt e next (some why) = fail why
  retry rs ctx step attempt e next none =
      if is_non_retryable e || leb_ℤ (retry_policy_for rs step).max_attempts (pos attempt)
      then fail (step_error step.name e)
      else wait_then rs ctx step attempt next

  -- The tests of `runStep` on the results of an attempt; `next` makes the next attempt.
  unfoldable pub judge :
      Run W D
      → Context
      → StepDefinition W D
      → ℕ
      → M W D (Option D × Option Error)
      → Option D × Option Error
      → M W D (Option D × Option Error)
  unfolding retry
  judge rs ctx step attempt next (out, none) = pure (out, none)
  judge rs ctx step attempt next (out, some e) =
      poll rs.runtime ctx >>= retry rs ctx step attempt e next

  -- The test for the saga's own timeout, which goes before: `sagaTimeoutErr` is `late`.
  unfoldable pub unless_saga_timeout :
      Run W D
      → Context
      → SagaTimeout
      → M W D (Option D × Option Error)
      → M W D (Option D × Option Error)
  unless_saga_timeout rs ctx none rest = rest
  unless_saga_timeout rs ctx (some (p, late)) rest =
      poll rs.runtime ctx >>= λ ended. if is_pointer p ended then fail late else rest

  -- One round of the loop of `runStep`, once the context has been looked at.
  unfoldable pub round :
      Run W D
      → Context
      → SagaTimeout
      → String
      → ℕ
      → StepDefinition W D
      → Option D
      → ℕ
      → M W D (Option D × Option Error)
      → Option Error
      → M W D (Option D × Option Error)
  unfolding call_action judge unless_saga_timeout
  round rs ctx late op_id i step data_in attempt next (some why) = fail why
  round rs ctx late op_id i step data_in attempt next none = do
    count_attempt i
    result ← call_action rs ctx op_id step step.timeout data_in
    unless_saga_timeout rs ctx late (judge rs ctx step attempt next result)

  -- The loop of `runStep` from one attempt on. The fuel is the number of rounds allowed.
  unfoldable pub attempt_loop :
      ℕ
      → Run W D
      → Context
      → SagaTimeout
      → String
      → ℕ
      → StepDefinition W D
      → Option D
      → ℕ
      → M W D (Option D × Option Error)
  unfolding round
  attempt_loop zero rs ctx late op_id i step data_in attempt = throw out_of_fuel
  attempt_loop (suc fuel) rs ctx late op_id i step data_in attempt =
      poll rs.runtime ctx
      >>= round rs ctx late op_id i step data_in attempt
          (attempt_loop fuel rs ctx late op_id i step data_in (suc attempt))

  -- `runStep`. The loop ends at the latest at the attempt that the policy's maximum names, so that
  -- many rounds are enough, and one if the maximum is below 1.
  unfoldable pub run_step :
      Run W D
      → Context
      → SagaTimeout
      → ℕ
      → StepDefinition W D
      → Option D
      → M W D (Option D × Option Error)
  unfolding attempt_loop retry_policy_for
  run_step rs ctx late i step data_in = do
    exec ← get_exec
    attempt_loop (suc (pos_part (retry_policy_for rs step).max_attempts)) rs ctx late
        (operation_id exec.id step.name) i step data_in 1
