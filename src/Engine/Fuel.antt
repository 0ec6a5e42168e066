-- ===== src/Engine/Fuel.antt =====
-- The loop of runStep of execute.go ends: the fuel that the model gives it is never used up.
use go_orchestrator.Prelude.{
  ℕ, zero, suc, ◌+◌, ◌<◌, String, ◌≡◌, refl, inl, inr, Bool, true, false, ◌||◌, Option, none, some,
  arith, if◌then◌else◌, Bool-cases,
}
use go_orchestrator.Prelude.Int.{ℤ, pos, pos_part, leb_ℤ}
use go_orchestrator.Errors.{Error, is_non_retryable}
use go_orchestrator.Context.{Context, operation_id}
use go_orchestrator.Definition.{StepDefinition}
use go_orchestrator.Engine.Monad.{M, Run, State, Outcome, ok, panic, Panic, after, ◌>>=◌, poll}
use go_orchestrator.Engine.Notify.{start_span, end_span}
use go_orchestrator.Engine.Spending.{below}
use go_orchestrator.Engine.Attempts.{
  SagaTimeout, retry_policy_for, sleep_or_done, invoke, call_timed, call_action, count_attempt,
  fail, is_pointer, waited, wait_then, retry, judge, unless_saga_timeout, round, attempt_loop,
  run_step,
}

module _ {W D : Type 0} where
  -- The fuel was not used up.
  abbrev pub IsWhole : {A : Type 0} → Outcome A × State W D → Type 0
  IsWhole (panic Panic.out_of_fuel, s) = ⊥
  IsWhole _ = Unit

  -- Two runs are the same, and the fuel was not used up.
  abbrev pub Alike : {A : Type 0} → Outcome A × State W D → Outcome A × State W D → Type 0
  Alike x y = (x ≡ y) × IsWhole x

  after-Alike :
      {A B : Type 0} (x : Outcome A × State W D) (f g : A → M W D B)
      → IsWhole x
      → ((a : A) (s : State W D) → Alike (f a s) (g a s))
      → Alike (after x f) (after x g)
  after-Alike (ok a, s) f g h e = e a s
  after-Alike (panic Panic.out_of_fuel, s) f g h e = absurd h
  after-Alike (panic (Panic.rejected x), s) f g h e = (refl, tt)
  after-Alike (panic Panic.index_out_of_range, s) f g h e = (refl, tt)
  after-Alike (panic Panic.nil_action, s) f g h e = (refl, tt)

  sleep_or_done-IsWhole :
      (rs : Run W D) (ctx : Context) (delay : ℤ) (s : State W D)
      → IsWhole (sleep_or_done rs ctx delay s)
  unfolding sleep_or_done
  sleep_or_done-IsWhole rs ctx delay s = ground arith

  count_attempt-IsWhole : (i : ℕ) (s : State W D) → IsWhole (count_attempt {W = W} i s)
  count_attempt-IsWhole i s = ground arith

  call_action-IsWhole :
      (rs : Run W D) (ctx : Context) (op_id : String) (step : StepDefinition W D) (timeout : ℤ)
      (x : Option D) (s : State W D)
      → IsWhole (call_action rs ctx op_id step timeout x s)
  unfolding call_action call_timed invoke start_span end_span
  call_action-IsWhole rs ctx op_id step timeout x s = ground arith

module _ {W D : Type 0} (rs : Run W D) (ctx : Context) (late : SagaTimeout)
    (step : StepDefinition W D) (x : Option D) where
  most : ℕ
  unfolding retry_policy_for
  most = pos_part (retry_policy_for rs step).max_attempts

  abbrev Next : Type 0
  Next = M W D (Option D × Option Error)

  wait_then-Alike :
      (attempt : ℕ) (next next' : Next) (s : State W D)
      → ((t : State W D) → Alike (next t) (next' t))
      → Alike (wait_then rs ctx step attempt next s) (wait_then rs ctx step attempt next' s)
  unfolding wait_then
  wait_then-Alike attempt next next' s h =
      let d = (retry_policy_for rs step).delay (pos (attempt + 1)) s.world in
      let s' : State W D = record s { world = d.1 } in
      after-Alike (sleep_or_done rs ctx d.0 s') (waited next) (waited next')
        (sleep_or_done-IsWhole rs ctx d.0 s') by
    where
      by : (o : Option Error) (t : State W D) → Alike (waited next o t) (waited next' o t)
      by none t = h t
      by (some e) t = (refl, tt)

  retry-Alike :
      (attempt : ℕ) (e : Error) (next next' : Next) (o : Option Error) (s : State W D)
      → (attempt < most → (t : State W D) → Alike (next t) (next' t))
      → Alike (retry rs ctx step attempt e next o s) (retry rs ctx step attempt e next' o s)
  unfolding retry most
  retry-Alike attempt e next next' (some why) s h = (refl, tt)
  retry-Alike attempt e next next' none s h =
      elim (Bool-cases
        (is_non_retryable e || leb_ℤ (retry_policy_for rs step).max_attempts (pos attempt))) [
          | inl p ↦ rw p (refl, tt)
          | inr p ↦ rw p (
              wait_then-Alike attempt next next' s
                (h (below (retry_policy_for rs step).max_attempts attempt (is_non_retryable e) p)))
        ]

  judge-Alike :
      (attempt : ℕ) (next next' : Next) (r : Option D × Option Error) (s : State W D)
      → (attempt < most → (t : State W D) → Alike (next t) (next' t))
      → Alike (judge rs ctx step attempt next r s) (judge rs ctx step attempt next' r s)
  unfolding judge
  judge-Alike attempt next next' (out, none) s h = (refl, tt)
  judge-Alike attempt next next' (out, some e) s h =
      after-Alike (poll rs.runtime ctx s) (retry rs ctx step attempt e next)
        (retry rs ctx step attempt e next') tt (λ o t. retry-Alike attempt e next next' o t h)

  unless_saga_timeout-Alike :
      (rest rest' : Next) (o : SagaTimeout) (s : State W D)
      → ((t : State W D) → Alike (rest t) (rest' t))
      → Alike (unless_saga_timeout rs ctx o rest s) (unless_saga_timeout rs ctx o rest' s)
  unfolding unless_saga_timeout
  unless_saga_timeout-Alike rest rest' none s h = h s
  unless_saga_timeout-Alike rest rest' (some (p, e)) s h =
      after-Alike (poll rs.runtime ctx s) (λ o. if is_pointer p o then fail e else rest)
        (λ o. if is_pointer p o then fail e else rest') tt (λ o t. either (is_pointer p o) t)
    where
      either :
          (b : Bool) (t : State W D)
          → Alike ((if b then fail e else rest) t) ((if b then fail e else rest') t)
      either true t = (refl, tt)
      either false t = h t

  round-Alike :
      (op_id : String) (i attempt : ℕ) (next next' : Next) (o : Option Error) (s : State W D)
      → (attempt < most → (t : State W D) → Alike (next t) (next' t))
      → Alike
          (round rs ctx late op_id i step x attempt next o s)
          (round rs ctx late op_id i step x attempt next' o s)
  unfolding round
  round-Alike op_id i attempt next next' (some why) s h = (refl, tt)
  round-Alike op_id i attempt next next' none s h =
      after-Alike (count_attempt i s) (λ u. called >>= judged next) (λ u. called >>= judged next')
        (count_attempt-IsWhole i s)
        (λ u t.
          after-Alike (called t) (judged next) (judged next')
            (call_action-IsWhole rs ctx op_id step step.timeout x t)
            (λ r t'.
              unless_saga_timeout-Alike (judge rs ctx step attempt next r)
                (judge rs ctx step attempt next' r) late t'
                (λ t''. judge-Alike attempt next next' r t'' h)))
    where
      called : Next
      called = call_action rs ctx op_id step step.timeout x

      judged : Next → Option D × Option Error → Next
      judged next r = unless_saga_timeout rs ctx late (judge rs ctx step attempt next r)

  -- Enough rounds and any number of rounds that is enough.
  attempt_loop-Alike :
      (fuel fuel' : ℕ) (op_id : String) (i attempt : ℕ) (s : State W D)
      → 0 < fuel
      → 0 < fuel'
      → most < fuel + attempt
      → most < fuel' + attempt
      → Alike
          (attempt_loop fuel rs ctx late op_id i step x attempt s)
          (attempt_loop fuel' rs ctx late op_id i step x attempt s)
  unfolding attempt_loop
  attempt_loop-Alike zero fuel' op_id i attempt s p p' q q' = elim p [ ]
  attempt_loop-Alike (suc fuel) zero op_id i attempt s p p' q q' = elim p' [ ]
  attempt_loop-Alike (suc fuel) (suc fuel') op_id i attempt s p p' q q' =
      after-Alike (poll rs.runtime ctx s)
        (round rs ctx late op_id i step x attempt
          (attempt_loop fuel rs ctx late op_id i step x (suc attempt)))
        (round rs ctx late op_id i step x attempt
          (attempt_loop fuel' rs ctx late op_id i step x (suc attempt)))
        tt
        (λ o t. round-Alike op_id i attempt _ _ o t (λ l t'.
          attempt_loop-Alike fuel fuel' op_id i (suc attempt) t' (omega (arith, l, q))
            (omega (arith, l, q')) (omega (arith, q)) (omega (arith, q'))))

  -- `runStep` ends: its loop, which the model cuts off after `MaxAttempts` plus one rounds, is never
  -- cut off, and with any larger number of rounds allowed its result and its state are the same.
  pub run_step-rounds :
      (i rounds : ℕ) (s : State W D)
      → pos_part (retry_policy_for rs step).max_attempts < rounds
      → (run_step rs ctx late i step x s
          ≡ attempt_loop rounds rs ctx late (operation_id s.exec.id step.name) i step x 1 s)
        × IsWhole (run_step rs ctx late i step x s)
  unfolding run_step most
  run_step-rounds i rounds s h =
      attempt_loop-Alike (suc most) rounds (operation_id s.exec.id step.name) i 1 s (omega arith)
        (omega (arith, h)) (omega arith) (omega (arith, h))
