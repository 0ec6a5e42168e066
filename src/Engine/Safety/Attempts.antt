-- ===== src/Engine/Safety/Attempts.antt =====
-- The safety of runStep of execute.go: it ends within the rounds that the policy allows, and changes
-- no status.
use go_orchestrator.Prelude.{
  ℕ, zero, suc, String, ◌+◌, ◌<◌, ◌≡◌, true, false, ◌||◌, Option, none, some, arith, get_elem?,
  is_some, set_same,
}
use go_orchestrator.Prelude.Int.{ℤ, pos, pos_part, leb_ℤ, inc64}
use go_orchestrator.Status.{StepStatus}
use go_orchestrator.Errors.{Error, step_error, is_non_retryable}
use go_orchestrator.Context.{Context}
use go_orchestrator.Definition.{StepDefinition}
use go_orchestrator.Engine.Monad.{M, Run, ask_outside, poll}
use go_orchestrator.Engine.Attempts.{
  SagaTimeout, retry_policy_for, sleep_or_done, invoke, call_timed, call_action, count_attempt,
  fail, waited, wait_then, retry, judge, is_pointer, unless_saga_timeout, round, attempt_loop,
  run_step,
}
use go_orchestrator.Engine.Shapes.{Shape}
use go_orchestrator.Engine.Logic.{Meets, At, bind-Meets, if-Meets}
use go_orchestrator.Engine.Safety.Persist.{get_step-Meets, put_step-Meets}

module _ {W D : Type 0} (rs : Run W D) (n : ℕ) (v : Shape) where
  pub poll-Meets : (ctx : Context) → Meets n v (poll {D = D} rs.runtime ctx) (At v)
  poll-Meets ctx = record { apply = λ s e safe. (safe, e) }

  ask-Meets : {A : Type 0} (f : W → A × W) → Meets n v (ask_outside {D = D} f) (At v)
  ask-Meets f = record { apply = λ s e safe. (safe, e) }

  sleep_or_done-Meets : (ctx : Context) (delay : ℤ) → Meets n v (sleep_or_done rs ctx delay) (At v)
  unfolding sleep_or_done
  sleep_or_done-Meets ctx delay = record { apply = λ s e safe. ground arith }

  -- A step with an action.
  module _ (step : StepDefinition W D) (has_action : is_some step.action ≡ true) where
    invoke-Meets : (ctx : Context) (x : Option D) → Meets n v (invoke step ctx x) (At v)
    unfolding invoke
    invoke-Meets ctx x = record { apply = λ s e safe. ground arith }

    call_timed-Meets :
        (ctx : Context) (timeout : ℤ) (x : Option D)
        → Meets n v (call_timed rs ctx step timeout x) (At v)
    unfolding call_timed
    call_timed-Meets ctx timeout x = record { apply = λ s e safe. ground arith }

    call_action-Meets :
        (ctx : Context) (op_id : String) (timeout : ℤ) (x : Option D)
        → Meets n v (call_action rs ctx op_id step timeout x) (At v)
    unfolding call_action
    call_action-Meets ctx op_id timeout x = record { apply = λ s e safe. ground arith }

module _ {W D : Type 0} (rs : Run W D) (n : ℕ) (v : Shape) where
  -- Setting a step's status to what it is changes nothing.
  count_attempt-Meets :
      (i : ℕ) (st : StepStatus)
      → get_elem? v.1 i ≡ some st
      → Meets n v (count_attempt {W = W} {D = D} i) (At v)
  count_attempt-Meets i st found = get_step-Meets i st n v _ (At v) found λ x here.
      rw (set_same v.1 i st found) at
        (put_step-Meets {W = W} i (record x { attempts = inc64 x.attempts }) st n v here)

  fail-Meets : (e : Error) → Meets n v (fail {W = W} {D = D} e) (At v)
  fail-Meets e = record { apply = λ s k safe. (safe, k) }

  unless_saga_timeout-Meets :
      (ctx : Context) (late : SagaTimeout) (rest : M W D (Option D × Option Error))
      → Meets n v rest (At v)
      → Meets n v (unless_saga_timeout rs ctx late rest) (At v)
  unfolding unless_saga_timeout
  unless_saga_timeout-Meets ctx none rest h = h
  unless_saga_timeout-Meets ctx (some (p, e)) rest h =
      bind-Meets n v v (poll rs.runtime ctx) _ (At v) (poll-Meets rs n v ctx)
        λ c. if-Meets n v (is_pointer p c) (fail e) rest (At v) (λ _. fail-Meets e) (λ _. h)

  module _ (step : StepDefinition W D) (next : M W D (Option D × Option Error)) where
    -- The next attempt is made only below the policy's maximum.
    abbrev NextMeets : ℕ → Type 0
    NextMeets attempt =
        leb_ℤ (retry_policy_for rs step).max_attempts (pos attempt) ≡ false → Meets n v next (At v)

    waited-Meets : (w : Option Error) → Meets n v next (At v) → Meets n v (waited next w) (At v)
    waited-Meets none h = h
    waited-Meets (some e) h = fail-Meets e

    wait_then-Meets :
        (ctx : Context) (attempt : ℕ)
        → Meets n v next (At v)
        → Meets n v (wait_then rs ctx step attempt next) (At v)
    unfolding wait_then
    wait_then-Meets ctx attempt h =
        bind-Meets n v v _ _ (At v)
          (ask-Meets rs n v ((retry_policy_for rs step).delay (pos (attempt + 1))))
          λ delay.
            bind-Meets n v v _ _ (At v) (sleep_or_done-Meets rs n v ctx delay) λ w. waited-Meets w h

    retry-Meets :
        (ctx : Context) (attempt : ℕ) (e : Error) (c : Option Error)
        → NextMeets attempt
        → Meets n v (retry rs ctx step attempt e next c) (At v)
    unfolding retry
    retry-Meets ctx attempt e (some why) h = fail-Meets why
    retry-Meets ctx attempt e none h =
        if-Meets n v
          (is_non_retryable e || leb_ℤ (retry_policy_for rs step).max_attempts (pos attempt))
          (fail (step_error step.name e)) (wait_then rs ctx step attempt next) (At v)
          (λ _. fail-Meets (step_error step.name e))
          (λ go. wait_then-Meets ctx attempt (h (ground arith)))

    judge-Meets :
        (ctx : Context) (attempt : ℕ) (result : Option D × Option Error)
        → NextMeets attempt
        → Meets n v (judge rs ctx step attempt next result) (At v)
    unfolding judge
    judge-Meets ctx attempt (out, none) h = record { apply = λ s k safe. (safe, k) }
    judge-Meets ctx attempt (out, some e) h =
        bind-Meets n v v _ _ (At v) (poll-Meets rs n v ctx) λ c. retry-Meets ctx attempt e c h

    round-Meets :
        (ctx : Context) (late : SagaTimeout) (op_id : String) (i : ℕ) (st : StepStatus)
        (x : Option D) (attempt : ℕ) (c : Option Error)
        → is_some step.action ≡ true
        → get_elem? v.1 i ≡ some st
        → NextMeets attempt
        → Meets n v (round rs ctx late op_id i step x attempt next c) (At v)
    unfolding round
    round-Meets ctx late op_id i st x attempt (some why) act found h = fail-Meets why
    round-Meets ctx late op_id i st x attempt none act found h =
        bind-Meets n v v _ _ (At v) (count_attempt-Meets i st found) λ _.
          bind-Meets n v v _ _ (At v) (call_action-Meets rs n v step act ctx op_id step.timeout x)
            λ result. unless_saga_timeout-Meets ctx late _ (judge-Meets ctx attempt result h)

  -- With at least one round, and rounds up to the policy's maximum, the fuel does not run out.
  attempt_loop-Meets :
      (fuel : ℕ) (ctx : Context) (late : SagaTimeout) (op_id : String) (i : ℕ) (st : StepStatus)
      (step : StepDefinition W D) (x : Option D) (attempt : ℕ)
      → is_some step.action ≡ true
      → get_elem? v.1 i ≡ some st
      → 0 < fuel
      → pos_part (retry_policy_for rs step).max_attempts < attempt + fuel
      → Meets n v (attempt_loop fuel rs ctx late op_id i step x attempt) (At v)
  unfolding attempt_loop
  attempt_loop-Meets zero ctx late op_id i st step x attempt act found some_left enough =
      elim some_left [ ]
  attempt_loop-Meets (suc fuel) ctx late op_id i st step x attempt act found some_left enough =
      bind-Meets n v v _ _ (At v) (poll-Meets rs n v ctx) λ c.
        round-Meets step (attempt_loop fuel rs ctx late op_id i step x (suc attempt)) ctx late op_id
          i st x attempt c act found
          λ below.
            attempt_loop-Meets fuel ctx late op_id i st step x (suc attempt) act found
              (ground arith) (omega arith)

  pub run_step-Meets :
      (ctx : Context) (late : SagaTimeout) (i : ℕ) (st : StepStatus) (step : StepDefinition W D)
      (x : Option D)
      → is_some step.action ≡ true
      → get_elem? v.1 i ≡ some st
      → Meets n v (run_step rs ctx late i step x) (At v)
  unfolding run_step
  run_step-Meets ctx late i st step x act found = record {
    apply = λ s e safe.
        (attempt_loop-Meets (suc (pos_part (retry_policy_for rs step).max_attempts)) ctx late _ i st
            step x 1 act found (omega arith) (omega arith)).apply
          s e safe;
  }
