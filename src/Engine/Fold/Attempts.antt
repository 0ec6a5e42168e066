-- ===== src/Engine/Fold/Attempts.antt =====
-- What runStep of execute.go computes for a step whose action is a function.
use Prim.Native.String.{◌++◌}
use go_orchestrator.Prelude.{
  ℕ, zero, suc, ◌+◌, String, ◌≡◌, refl, ap, Bool, true, false, ◌||◌, Option, none, some,
  if◌then◌else◌,
}
use go_orchestrator.Prelude.Int.{ℤ, pos, pos_part, leb_ℤ}
use go_orchestrator.Errors.{Error, step_error, is_non_retryable}
use go_orchestrator.Context.{Context, ended, span, with_operation_id}
use go_orchestrator.Interfaces.{Tracer}
use go_orchestrator.Definition.{StepDefinition, ActionFunc}
use go_orchestrator.Engine.Monad.{
  M, Run, State, Outcome, ok, panic, after, ◌>>=◌, ◌>>◌, pure, poll, cause, throw, nil_action,
  ask_outside, record_call, acted,
}
use go_orchestrator.Engine.Notify.{span_context, start_span, end_span}
use go_orchestrator.Engine.Attempts.{
  retry_policy_for, sleep_or_done, woken, invoke, call_action, count_attempt, fail, waited,
  wait_then, retry, judge, unless_saga_timeout, round, attempt_loop, run_step,
}
use go_orchestrator.Engine.Kept.{OnSome}
use go_orchestrator.Engine.Fold.{PureStep, IsPure, IsCalm, IsOpen}

module _ {W D : Type 0} where
  -- What is returned, if something is.
  abbrev pub Says : {A : Type 0} → (A → Type 0) → Outcome A × State W D → Type 0
  Says P (ok a, s) = P a
  Says P (panic p, s) = Unit

  pub after-Says :
      {A B : Type 0} (P : A → Type 0) (Q : B → Type 0) (x : Outcome A × State W D) (f : A → M W D B)
      → Says P x
      → ((a : A) (s : State W D) → P a → Says Q (f a s))
      → Says Q (after x f)
  after-Says P Q (ok a, s) f p h = h a s p
  after-Says P Q (panic y, s) f p h = tt

  pub if-Says :
      {A : Type 0} (P : A → Type 0) (b : Bool) (m m' : M W D A) (s : State W D)
      → Says P (m s)
      → Says P (m' s)
      → Says P ((if b then m else m') s)
  if-Says P true m m' s h h' = h
  if-Says P false m m' s h h' = h'

  pub anything : {A : Type 0} (x : Outcome A × State W D) → Says (λ _. Unit) x
  anything (ok a, s) = tt
  anything (panic p, s) = tt

-- The result of `runStep`.
abbrev pub reply : {D : Type 0} → String → Option D × Option Error → Option D × Option Error
reply name (out, none) = (out, none)
reply name (out, some e) = (none, some (step_error name e))

module _ {W D : Type 0} (rs : Run W D) (calm : IsCalm rs.runtime) where
  pub span-IsOpen : (ctx : Context) (name : String) → IsOpen ctx → IsOpen (span_context rs ctx name)
  unfolding ended
  span-IsOpen ctx name h = by rs.definition.tracer
    where
      chosen : Option (Tracer W) → Context
      chosen o = elim o [ none ↦ ctx | some t ↦ span ctx name ]

      by : (o : Option (Tracer W)) → IsOpen (chosen o)
      by none = h
      by (some t) = h

  pub poll-Says :
      (ctx : Context) (s : State W D) → IsOpen ctx → Says (λ o. o ≡ none) (poll rs.runtime ctx s)
  poll-Says ctx s h =
      let w = rs.runtime.tick s.world in rw (calm w) (ap cause (h (rs.runtime.now w)))

  sleep_or_done-Says :
      (ctx : Context) (delay : ℤ) (s : State W D)
      → IsOpen ctx
      → Says (λ o. o ≡ none) (sleep_or_done rs ctx delay s)
  unfolding sleep_or_done
  sleep_or_done-Says ctx delay s h =
      if-Says (λ o. o ≡ none) (leb_ℤ delay (pos 0)) (poll rs.runtime ctx)
        (ask_outside (rs.runtime.sleep ctx delay) >>= woken rs ctx) s (poll-Says ctx s h)
        (asleep (rs.runtime.sleep ctx delay s.world).0
          (record s { world = (rs.runtime.sleep ctx delay s.world).1 }))
    where
      asleep : (b : Bool) (t : State W D) → Says (λ o. o ≡ none) (woken rs ctx b t)
      asleep true t = refl
      asleep false t = poll-Says ctx t h

  module _ (step : StepDefinition W D) (p : PureStep D) (pure_step : IsPure step p)
      (x : Option D) where
    -- The result of the action.
    abbrev IsResult : Option D × Option Error → Type 0
    IsResult r = r ≡ p.act x

    invoke-Says : (ctx : Context) (s : State W D) → Says IsResult (invoke step ctx x s)
    unfolding invoke
    invoke-Says ctx s = by step.action pure_step.computes
      where
        chosen : Option (ActionFunc W D) → M W D (Option D × Option Error)
        chosen o = elim o [
          | none ↦ throw nil_action
          | some f ↦
              ask_outside (f ctx x) >>= λ r. record_call (acted step.name ctx x r.1) >> pure r
        ]

        by :
            (o : Option (ActionFunc W D))
            → OnSome
                (λ (f : ActionFunc W D).
                  (ctx : Context) (x : Option D) (w : W) → (f ctx x w).0 ≡ p.act x)
                o
            → Says IsResult (chosen o s)
        by none h = tt
        by (some f) h = h ctx x s.world

    call_action-Says :
        (ctx : Context) (op_id : String) (s : State W D)
        → Says IsResult (call_action rs ctx op_id step step.timeout x s)
    unfolding call_action
    call_action-Says ctx op_id s = rw pure_step.untimed (
        after-Says (λ _. Unit) IsResult (start_span rs ctx' name s)
          (λ _. invoke step ctx'' x >>= ended_by) (anything (start_span rs ctx' name s))
          (λ _ t _.
            after-Says IsResult IsResult (invoke step ctx'' x t) ended_by (invoke-Says ctx'' t)
              (λ r u h.
                after-Says (λ _. Unit) IsResult (end_span rs ctx' name u) (λ _. pure r)
                  (anything (end_span rs ctx' name u)) (λ _ _ _. h))))
      where
        ctx' : Context
        ctx' = with_operation_id ctx op_id

        name : String
        name = "step:" ++ step.name

        ctx'' : Context
        ctx'' = span_context rs ctx' name

        ended_by : Option D × Option Error → M W D (Option D × Option Error)
        ended_by r = end_span rs ctx' name >> pure r

    -- The result of the loop.
    abbrev IsReply : Option D × Option Error → Type 0
    IsReply r = r ≡ reply step.name (p.act x)

    wait_then-Says :
        (ctx : Context) (attempt : ℕ) (next : M W D (Option D × Option Error)) (s : State W D)
        → IsOpen ctx
        → ((t : State W D) → Says IsReply (next t))
        → Says IsReply (wait_then rs ctx step attempt next s)
    unfolding wait_then
    wait_then-Says ctx attempt next s h n =
        let d = (retry_policy_for rs step).delay (pos (attempt + 1)) s.world in
        let s' : State W D = record s { world = d.1 } in
        after-Says (λ o. o ≡ none) IsReply (sleep_or_done rs ctx d.0 s') (waited next)
          (sleep_or_done-Says ctx d.0 s' h) (λ o t e. rw e (n t))

    retry-Says :
        (ctx : Context) (attempt : ℕ) (e : Error) (next : M W D (Option D × Option Error))
        (why : Option Error) (s : State W D)
        → IsOpen ctx
        → (none, some (step_error step.name e)) ≡ reply step.name (p.act x)
        → ((t : State W D) → Says IsReply (next t))
        → why ≡ none
        → Says IsReply (retry rs ctx step attempt e next why s)
    unfolding retry
    retry-Says ctx attempt e next why s h r n q = rw q (
        if-Says IsReply
          (is_non_retryable e || leb_ℤ (retry_policy_for rs step).max_attempts (pos attempt))
          (fail (step_error step.name e)) (wait_then rs ctx step attempt next) s r
          (wait_then-Says ctx attempt next s h n))

    judge-Says :
        (ctx : Context) (attempt : ℕ) (next : M W D (Option D × Option Error))
        (r : Option D × Option Error) (s : State W D)
        → IsOpen ctx
        → ((t : State W D) → Says IsReply (next t))
        → r ≡ p.act x
        → Says IsReply (judge rs ctx step attempt next r s)
    unfolding judge
    judge-Says ctx attempt next (out, none) s h n e = ap (reply step.name) e
    judge-Says ctx attempt next (out, some y) s h n e =
        after-Says (λ o. o ≡ none) IsReply (poll rs.runtime ctx s)
          (retry rs ctx step attempt y next) (poll-Says ctx s h)
          (λ o t q. retry-Says ctx attempt y next o t h (ap (reply step.name) e) n q)

    round-Says :
        (ctx : Context) (op_id : String) (i attempt : ℕ) (next : M W D (Option D × Option Error))
        (why : Option Error) (s : State W D)
        → IsOpen ctx
        → ((t : State W D) → Says IsReply (next t))
        → why ≡ none
        → Says IsReply (round rs ctx none op_id i step x attempt next why s)
    unfolding round unless_saga_timeout
    round-Says ctx op_id i attempt next why s h n q = rw q (
        after-Says (λ _. Unit) IsReply (count_attempt i s)
          (λ _. call_action rs ctx op_id step step.timeout x >>= judge rs ctx step attempt next)
          (anything (count_attempt i s))
          (λ _ t _.
            after-Says IsResult IsReply (call_action rs ctx op_id step step.timeout x t)
              (judge rs ctx step attempt next) (call_action-Says ctx op_id t)
              (λ r u e. judge-Says ctx attempt next r u h n e)))

    attempt_loop-Says :
        (fuel : ℕ) (ctx : Context) (op_id : String) (i attempt : ℕ) (s : State W D)
        → IsOpen ctx
        → Says IsReply (attempt_loop fuel rs ctx none op_id i step x attempt s)
    unfolding attempt_loop
    attempt_loop-Says zero ctx op_id i attempt s h = tt
    attempt_loop-Says (suc fuel) ctx op_id i attempt s h =
        after-Says (λ o. o ≡ none) IsReply (poll rs.runtime ctx s) _ (poll-Says ctx s h)
          (λ o t q.
            round-Says ctx op_id i attempt
              (attempt_loop fuel rs ctx none op_id i step x (suc attempt)) o t h
              (λ u. attempt_loop-Says fuel ctx op_id i (suc attempt) u h) q)

    pub run_step-Says :
        (ctx : Context) (i : ℕ) (s : State W D)
        → IsOpen ctx
        → Says IsReply (run_step rs ctx none i step x s)
    unfolding run_step
    run_step-Says ctx i s h =
        attempt_loop-Says (suc (pos_part (retry_policy_for rs step).max_attempts)) ctx _ i 1 s h
