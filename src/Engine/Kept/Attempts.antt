-- ===== src/Engine/Kept/Attempts.antt =====
-- What runStep of execute.go keeps.
use Prim.Native.String.{◌++◌}
use go_orchestrator.Prelude.{
  ℕ, zero, suc, ◌+◌, String, ◌≡◌, refl, sym, ap, subst, ◌∙◌, Bool, true, false, ◌||◌, Option, none,
  some, if◌then◌else◌, arith,
}
use go_orchestrator.Prelude.Int.{ℤ, pos, pos_part, leb_ℤ}
use go_orchestrator.Errors.{Error, step_error, step_timeout, is_non_retryable}
use go_orchestrator.Context.{
  Context, with_operation_id, with_timeout_cause, operation_id, operation_id_of,
}
use go_orchestrator.Definition.{StepDefinition, ActionFunc}
use go_orchestrator.Engine.Monad.{
  M, Run, State, ◌>>=◌, ◌>>◌, pure, throw, nil_action, out_of_fuel, ask_outside, record_call, acted,
  now, poll, allocate,
}
use go_orchestrator.Engine.Notify.{span_context, start_span, end_span}
use go_orchestrator.Engine.Attempts.{
  SagaTimeout, retry_policy_for, sleep_or_done, woken, invoke, call_timed, call_action,
  count_attempt, fail, is_pointer, unless_late, waited, wait_then, retry, judge,
  unless_saga_timeout, round, attempt_loop, run_step,
}
use go_orchestrator.Engine.Kept.{
  Identity, identity, IsStepApart, IsPolicyApart, IsKept, Good, Keeps, pure-Keeps, throw-Keeps,
  bind-Keeps,
}
use go_orchestrator.Engine.Kept.Notify.{
  maybe-Keeps, if-Keeps, ask_outside-Keeps, now-Keeps, poll-Keeps, start_span-Keeps, end_span-Keeps,
}
use go_orchestrator.Engine.Kept.Persist.{get_step-Good, put_step-Good}

module _ {W D : Type 0} {rs : Run W D} {v : Identity D} {Same : W → W → Type 0}
    {Holds : State W D → Type 0} (k : IsKept rs v Same Holds) where
  pub allocate-Keeps : Keeps v Holds allocate
  allocate-Keeps = record { apply = λ s g. (g.0, k.allocates s (suc s.next_pointer) g.1) }

  pub operation_id_of-span_context :
      (ctx : Context) (name : String)
      → operation_id_of (span_context rs ctx name) ≡ operation_id_of ctx
  unfolding operation_id_of
  operation_id_of-span_context ctx name = ground arith

  count_attempt-Keeps : (i : ℕ) → Keeps v Holds (count_attempt i)
  count_attempt-Keeps i = record {
    apply = λ s g. get_step-Good k i _ s g (λ x found. put_step-Good k i x _ s found refl g);
  }

  sleep_or_done-Keeps : (ctx : Context) (delay : ℤ) → Keeps v Holds (sleep_or_done rs ctx delay)
  unfolding sleep_or_done
  sleep_or_done-Keeps ctx delay =
      if-Keeps (leb_ℤ delay (pos 0)) (poll rs.runtime ctx) _ (poll-Keeps k.world ctx) (
        bind-Keeps v Holds (ask_outside (rs.runtime.sleep ctx delay)) (woken rs ctx)
          (ask_outside-Keeps k.world (rs.runtime.sleep ctx delay) (k.world.apart.sleep ctx delay))
          after_sleep)
    where
      after_sleep : (b : Bool) → Keeps v Holds (woken rs ctx b)
      after_sleep true = pure-Keeps v Holds none
      after_sleep false = poll-Keeps k.world ctx

  module _ (step : StepDefinition W D) (apart : IsStepApart Same step) where
    policy-IsPolicyApart : IsPolicyApart Same (retry_policy_for rs step)
    unfolding retry_policy_for
    policy-IsPolicyApart = ground (arith, apart.retry_policy, k.world.apart.delays)

    -- The context carries the step's own operation ID.
    abbrev IsMarked : Context → Type 0
    IsMarked ctx = operation_id_of ctx ≡ operation_id v.0 step.name

    invoke-Keeps : (ctx : Context) (x : Option D) → IsMarked ctx → Keeps v Holds (invoke step ctx x)
    unfolding invoke
    invoke-Keeps ctx x marked =
        maybe-Keeps _ step.action (throw nil_action) _ apart.action (throw-Keeps v Holds nil_action)
          called
      where
        called :
            (f : ActionFunc W D)
            → ((ctx : Context) (x : Option D) (w : W) → Same w (f ctx x w).1)
            → Keeps v Holds
                (ask_outside (f ctx x) >>= λ r. record_call (acted step.name ctx x r.1) >> pure r)
        called f h = record {
          apply = λ s g.
              let (r, w) = f ctx x s.world in
              let at : identity s.exec ≡ v = g.0 in
              (
                g.0,
                k.acts (record s { world = w }) step.name ctx x r.1 g.0
                    (marked ∙ ap (λ (u : Identity D). operation_id u.0 step.name) (sym at))
                    (k.world.moves s w (h ctx x s.world) g.1),
              );
        }

    call_timed-Keeps :
        (ctx : Context) (timeout : ℤ) (x : Option D)
        → IsMarked ctx
        → Keeps v Holds (call_timed rs ctx step timeout x)
    unfolding call_timed operation_id_of
    call_timed-Keeps ctx timeout x marked = bind-Keeps v Holds allocate _ allocate-Keeps λ p.
        bind-Keeps v Holds (now rs.runtime) _ (now-Keeps k.world) λ start.
          let late = step_timeout p step.name timeout in
          let ctx' = with_timeout_cause ctx (start + pos_part timeout) late in
          bind-Keeps v Holds (invoke step ctx' x) _ (invoke-Keeps ctx' x marked) λ r.
            bind-Keeps v Holds (poll rs.runtime ctx') (λ c. pure (unless_late p late r c))
              (poll-Keeps k.world ctx') (λ c. pure-Keeps v Holds (unless_late p late r c))

    call_action-Keeps :
        (ctx : Context) (timeout : ℤ) (x : Option D)
        → Keeps v Holds (call_action rs ctx (operation_id v.0 step.name) step timeout x)
    unfolding call_action operation_id_of
    call_action-Keeps ctx timeout x =
        bind-Keeps v Holds (start_span rs ctx' name) _ (start_span-Keeps k.world ctx' name) λ _.
          bind-Keeps v Holds
            (if leb_ℤ timeout (pos 0)
              then invoke step ctx'' x
              else call_timed rs ctx'' step timeout x)
            _
            (if-Keeps (leb_ℤ timeout (pos 0)) (invoke step ctx'' x)
              (call_timed rs ctx'' step timeout x) (invoke-Keeps ctx'' x marked)
              (call_timed-Keeps ctx'' timeout x marked))
            (λ r.
              bind-Keeps v Holds (end_span rs ctx' name) (λ _. pure r)
                (end_span-Keeps k.world ctx' name) (λ _. pure-Keeps v Holds r))
      where
        ctx' : Context
        ctx' = with_operation_id ctx (operation_id v.0 step.name)

        name : String
        name = "step:" ++ step.name

        ctx'' : Context
        ctx'' = span_context rs ctx' name

        marked : IsMarked ctx''
        marked = operation_id_of-span_context ctx' name

    waited-Keeps :
        (next : M W D (Option D × Option Error)) (e : Option Error)
        → Keeps v Holds next
        → Keeps v Holds (waited next e)
    waited-Keeps next none h = h
    waited-Keeps next (some e) h = pure-Keeps v Holds (none, some e)

    wait_then-Keeps :
        (ctx : Context) (attempt : ℕ) (next : M W D (Option D × Option Error))
        → Keeps v Holds next
        → Keeps v Holds (wait_then rs ctx step attempt next)
    unfolding wait_then
    wait_then-Keeps ctx attempt next h =
        bind-Keeps v Holds (ask_outside ((retry_policy_for rs step).delay (pos (attempt + 1)))) _
          (ask_outside-Keeps k.world _ (policy-IsPolicyApart (pos (attempt + 1))))
          λ delay.
            bind-Keeps v Holds (sleep_or_done rs ctx delay) (waited next)
              (sleep_or_done-Keeps ctx delay) (λ e. waited-Keeps next e h)

    retry-Keeps :
        (ctx : Context) (attempt : ℕ) (e : Error) (next : M W D (Option D × Option Error))
        (why : Option Error)
        → Keeps v Holds next
        → Keeps v Holds (retry rs ctx step attempt e next why)
    unfolding retry
    retry-Keeps ctx attempt e next (some why) h = pure-Keeps v Holds (none, some why)
    retry-Keeps ctx attempt e next none h =
        if-Keeps (is_non_retryable e || leb_ℤ (retry_policy_for rs step).max_attempts (pos attempt))
          (fail (step_error step.name e)) (wait_then rs ctx step attempt next)
          (pure-Keeps v Holds (none, some (step_error step.name e)))
          (wait_then-Keeps ctx attempt next h)

    judge-Keeps :
        (ctx : Context) (attempt : ℕ) (next : M W D (Option D × Option Error))
        (r : Option D × Option Error)
        → Keeps v Holds next
        → Keeps v Holds (judge rs ctx step attempt next r)
    unfolding judge
    judge-Keeps ctx attempt next (out, none) h = pure-Keeps v Holds (out, none)
    judge-Keeps ctx attempt next (out, some e) h =
        bind-Keeps v Holds (poll rs.runtime ctx) (retry rs ctx step attempt e next)
          (poll-Keeps k.world ctx) (λ why. retry-Keeps ctx attempt e next why h)

    unless_saga_timeout-Keeps :
        (ctx : Context) (late : SagaTimeout) (rest : M W D (Option D × Option Error))
        → Keeps v Holds rest
        → Keeps v Holds (unless_saga_timeout rs ctx late rest)
    unfolding unless_saga_timeout
    unless_saga_timeout-Keeps ctx none rest h = h
    unless_saga_timeout-Keeps ctx (some (p, late)) rest h =
        bind-Keeps v Holds (poll rs.runtime ctx) (λ c. if is_pointer p c then fail late else rest)
          (poll-Keeps k.world ctx)
          (λ c. if-Keeps (is_pointer p c) (fail late) rest (pure-Keeps v Holds (none, some late)) h)

    round-Keeps :
        (ctx : Context) (late : SagaTimeout) (i : ℕ) (x : Option D) (attempt : ℕ)
        (next : M W D (Option D × Option Error)) (why : Option Error)
        → Keeps v Holds next
        → Keeps v Holds (round rs ctx late (operation_id v.0 step.name) i step x attempt next why)
    unfolding round
    round-Keeps ctx late i x attempt next (some why) h = pure-Keeps v Holds (none, some why)
    round-Keeps ctx late i x attempt next none h =
        bind-Keeps v Holds (count_attempt i) _ (count_attempt-Keeps i) λ _.
          bind-Keeps v Holds (call_action rs ctx (operation_id v.0 step.name) step step.timeout x)
            (λ r. unless_saga_timeout rs ctx late (judge rs ctx step attempt next r))
            (call_action-Keeps ctx step.timeout x)
            (λ r.
              unless_saga_timeout-Keeps ctx late (judge rs ctx step attempt next r)
                (judge-Keeps ctx attempt next r h))

    attempt_loop-Keeps :
        (fuel : ℕ) (ctx : Context) (late : SagaTimeout) (i : ℕ) (x : Option D) (attempt : ℕ)
        → Keeps v Holds
            (attempt_loop fuel rs ctx late (operation_id v.0 step.name) i step x attempt)
    unfolding attempt_loop
    attempt_loop-Keeps zero ctx late i x attempt = throw-Keeps v Holds out_of_fuel
    attempt_loop-Keeps (suc fuel) ctx late i x attempt =
        bind-Keeps v Holds (poll rs.runtime ctx) _ (poll-Keeps k.world ctx) (λ why.
          round-Keeps ctx late i x attempt _ why
            (attempt_loop-Keeps fuel ctx late i x (suc attempt)))

    pub run_step-Keeps :
        (ctx : Context) (late : SagaTimeout) (i : ℕ) (x : Option D)
        → Keeps v Holds (run_step rs ctx late i step x)
    unfolding run_step
    run_step-Keeps ctx late i x = record {
      apply = λ s g.
          let same : s.exec.id ≡ v.0 = ap (λ (u : Identity D). u.0) g.0 in
          subst
            (λ (id : String).
              Good v Holds
                (attempt_loop rounds rs ctx late (operation_id id step.name) i step x 1 s).1)
            (sym same) ((attempt_loop-Keeps rounds ctx late i x 1).apply s g);
    }
      where
        rounds : ℕ
        rounds = suc (pos_part (retry_policy_for rs step).max_attempts)
