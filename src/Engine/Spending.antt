-- ===== src/Engine/Spending.antt =====
-- How many times runStep of execute.go calls an action.
use go_orchestrator.Prelude.{
  ℕ, zero, suc, ◌+◌, ◌-◌, ◌≤◌, ◌<◌, String, ◌≡◌, inl, inr, Bool, true, false, ◌||◌, Option, none,
  some, List, [], ◌∷◌, arith, if◌then◌else◌, Bool-cases,
}
use go_orchestrator.Prelude.Int.{ℤ, pos, pos_part, leb_ℤ}
use go_orchestrator.Errors.{Error, is_non_retryable}
use go_orchestrator.Context.{Context, operation_id}
use go_orchestrator.Definition.{StepDefinition}
use go_orchestrator.Engine.Monad.{
  M, Run, State, Outcome, ok, panic, Call, acted, after, ◌>>=◌, poll,
}
use go_orchestrator.Engine.Notify.{start_span, end_span}
use go_orchestrator.Engine.Attempts.{
  SagaTimeout, retry_policy_for, sleep_or_done, invoke, call_timed, call_action, count_attempt,
  fail, is_pointer, waited, wait_then, retry, judge, unless_saga_timeout, round, attempt_loop,
  run_step,
}

-- How many of the calls were calls of an action.
abbrev pub acts : {D : Type 0} → List (Call D) → ℕ
acts [] = 0
acts (acted name ctx x e ∷ calls) = suc (acts calls)
acts (_ ∷ calls) = acts calls

module _ {W D : Type 0} where
  -- At most `k` more actions have been called, also if the function panics.
  abbrev pub Spends : {A : Type 0} → ℕ → State W D → Outcome A × State W D → Type 0
  Spends k s r = acts r.1.calls ≤ acts s.calls + k

  after-Spends :
      {A B : Type 0} (j k n : ℕ) (s : State W D) (r : Outcome A × State W D) (f : A → M W D B)
      → j + k ≤ n
      → Spends j s r
      → ((a : A) (t : State W D) → Spends k t (f a t))
      → Spends n s (after r f)
  after-Spends j k n s (ok a, t) f l h g = omega (arith, l, h, g a t)
  after-Spends j k n s (panic p, t) f l h g = omega (arith, l, h)

  poll-Spends : (rs : Run W D) (ctx : Context) (s : State W D) → Spends 0 s (poll rs.runtime ctx s)
  poll-Spends rs ctx s = omega arith

  sleep_or_done-Spends :
      (rs : Run W D) (ctx : Context) (delay : ℤ) (s : State W D)
      → Spends 0 s (sleep_or_done rs ctx delay s)
  unfolding sleep_or_done
  sleep_or_done-Spends rs ctx delay s = ground arith

  count_attempt-Spends : (i : ℕ) (s : State W D) → Spends 0 s (count_attempt {W = W} i s)
  count_attempt-Spends i s = ground arith

  call_action-Spends :
      (rs : Run W D) (ctx : Context) (op_id : String) (step : StepDefinition W D) (timeout : ℤ)
      (x : Option D) (s : State W D)
      → Spends 1 s (call_action rs ctx op_id step timeout x s)
  unfolding call_action call_timed invoke start_span end_span
  call_action-Spends rs ctx op_id step timeout x s = ground arith

pub below :
    (m : ℤ) (attempt : ℕ) (b : Bool) → (b || leb_ℤ m (pos attempt)) ≡ false → attempt < pos_part m
below m attempt b h = ground arith

module _ {W D : Type 0} (rs : Run W D) (ctx : Context) (late : SagaTimeout)
    (step : StepDefinition W D) (x : Option D) where
  most : ℕ
  unfolding retry_policy_for
  most = pos_part (retry_policy_for rs step).max_attempts

  waited-Spends :
      (k : ℕ) (next : M W D (Option D × Option Error)) (o : Option Error) (t : State W D)
      → ((t : State W D) → Spends k t (next t))
      → Spends k t (waited next o t)
  waited-Spends k next none t h = h t
  waited-Spends k next (some e) t h = omega arith

  wait_then-Spends :
      (attempt k : ℕ) (next : M W D (Option D × Option Error)) (s : State W D)
      → ((t : State W D) → Spends k t (next t))
      → Spends k s (wait_then rs ctx step attempt next s)
  unfolding wait_then
  wait_then-Spends attempt k next s h =
      let d = (retry_policy_for rs step).delay (pos (attempt + 1)) s.world in
      let s' : State W D = record s { world = d.1 } in
      after-Spends 0 k k s' (sleep_or_done rs ctx d.0 s') (waited next) (omega arith)
        (sleep_or_done-Spends rs ctx d.0 s') (λ o t. waited-Spends k next o t h)

  -- The loop goes on only below the policy's maximum.
  retry-Spends :
      (attempt k : ℕ) (e : Error) (next : M W D (Option D × Option Error)) (o : Option Error)
      (s : State W D)
      → (attempt < most → (t : State W D) → Spends k t (next t))
      → Spends k s (retry rs ctx step attempt e next o s)
  unfolding retry most
  retry-Spends attempt k e next (some why) s h = omega arith
  retry-Spends attempt k e next none s h =
      elim (Bool-cases
        (is_non_retryable e || leb_ℤ (retry_policy_for rs step).max_attempts (pos attempt))) [
          | inl p ↦ rw p (omega arith)
          | inr p ↦ rw p (
              wait_then-Spends attempt k next s
                (h (below (retry_policy_for rs step).max_attempts attempt (is_non_retryable e) p)))
        ]

  judge-Spends :
      (attempt k : ℕ) (next : M W D (Option D × Option Error)) (r : Option D × Option Error)
      (s : State W D)
      → (attempt < most → (t : State W D) → Spends k t (next t))
      → Spends k s (judge rs ctx step attempt next r s)
  unfolding judge
  judge-Spends attempt k next (out, none) s h = omega arith
  judge-Spends attempt k next (out, some e) s h =
      after-Spends 0 k k s (poll rs.runtime ctx s) (retry rs ctx step attempt e next) (omega arith)
        (poll-Spends rs ctx s) (λ o t. retry-Spends attempt k e next o t h)

  unless_saga_timeout-Spends :
      (k : ℕ) (rest : M W D (Option D × Option Error)) (o : SagaTimeout) (s : State W D)
      → ((t : State W D) → Spends k t (rest t))
      → Spends k s (unless_saga_timeout rs ctx o rest s)
  unfolding unless_saga_timeout
  unless_saga_timeout-Spends k rest none s h = h s
  unless_saga_timeout-Spends k rest (some (p, e)) s h =
      after-Spends 0 k k s (poll rs.runtime ctx s) (λ o. if is_pointer p o then fail e else rest)
        (omega arith) (poll-Spends rs ctx s) (λ o t. either (is_pointer p o) t)
    where
      either : (b : Bool) (t : State W D) → Spends k t ((if b then fail e else rest) t)
      either true t = omega arith
      either false t = h t

  round-Spends :
      (op_id : String) (i attempt k : ℕ) (next : M W D (Option D × Option Error)) (o : Option Error)
      (s : State W D)
      → (attempt < most → (t : State W D) → Spends k t (next t))
      → Spends (suc k) s (round rs ctx late op_id i step x attempt next o s)
  unfolding round
  round-Spends op_id i attempt k next (some why) s h = omega arith
  round-Spends op_id i attempt k next none s h =
      after-Spends 0 (suc k) (suc k) s (count_attempt i s)
        (λ u. call_action rs ctx op_id step step.timeout x >>= judged) (omega arith)
        (count_attempt-Spends i s)
        (λ u t.
          after-Spends 1 k (suc k) t (call_action rs ctx op_id step step.timeout x t) judged
            (omega arith) (call_action-Spends rs ctx op_id step step.timeout x t)
            (λ r t'.
              unless_saga_timeout-Spends k (judge rs ctx step attempt next r) late t'
                (λ t''. judge-Spends attempt k next r t'' h)))
    where
      judged : Option D × Option Error → M W D (Option D × Option Error)
      judged r = unless_saga_timeout rs ctx late (judge rs ctx step attempt next r)

  attempt_loop-Spends :
      (fuel : ℕ) (op_id : String) (i attempt : ℕ) (s : State W D)
      → Spends (suc (most - attempt)) s (attempt_loop fuel rs ctx late op_id i step x attempt s)
  unfolding attempt_loop
  attempt_loop-Spends zero op_id i attempt s = omega arith
  attempt_loop-Spends (suc fuel) op_id i attempt s =
      after-Spends 0 (suc (most - attempt)) (suc (most - attempt)) s (poll rs.runtime ctx s)
        (round rs ctx late op_id i step x attempt
          (attempt_loop fuel rs ctx late op_id i step x (suc attempt)))
        (omega arith) (poll-Spends rs ctx s)
        (λ o t.
          round-Spends op_id i attempt (most - attempt) _ o t
            (λ l t'. omega (arith, l, attempt_loop-Spends fuel op_id i (suc attempt) t')))

  -- A run of `runStep` calls the action of its step at most `MaxAttempts` times, and at most once if
  -- that is below 1, whether it returns or panics.
  pub run_step-acts :
      (i : ℕ) (s : State W D)
      → acts (run_step rs ctx late i step x s).1.calls
        ≤ acts s.calls + suc (pos_part (retry_policy_for rs step).max_attempts - 1)
  unfolding run_step most
  run_step-acts i s = attempt_loop-Spends (suc most) (operation_id s.exec.id step.name) i 1 s
