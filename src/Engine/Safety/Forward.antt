-- ===== src/Engine/Safety/Forward.antt =====
-- The safety of the main loop of resumeRunning of execute.go.
use go_orchestrator.Prelude.{
  ℕ, suc, ◌+◌, ◌<◌, ◌≡◌, refl, ap, ◌⊎◌, inl, inr, true, Option, none, some, List, [], ◌∷◌, arith,
  set, length, is_some,
}
use go_orchestrator.Status.{Status, StepStatus, can_transition_status, can_transition_step_status}
use go_orchestrator.Errors.{Error}
use go_orchestrator.Context.{Context}
use go_orchestrator.Definition.{StepDefinition}
use go_orchestrator.Definition.Names.{HaveActions}
use go_orchestrator.Engine.Monad.{M, Run, State, ◌>>=◌, put_exec, poll}
use go_orchestrator.Engine.Persist.{transition_step}
use go_orchestrator.Engine.Attempts.{SagaTimeout, run_step}
use go_orchestrator.Engine.Running.{
  set_current, after_step, begin_step, forward_step, complete, forward_loop,
}
use go_orchestrator.Engine.Shapes.{
  Shape, IsSound, AllSucceeded, Front-Middle, Middle-get, Middle-lt, Front-AllSucceeded,
}
use go_orchestrator.Engine.Logic.{
  Meets, Then, Finds, bind-Meets, try_some-Meets, weaken-Meets, Ended,
}
use go_orchestrator.Engine.Safety.Persist.{transition_exec-Meets, get_step-Meets}
use go_orchestrator.Engine.Safety.Attempts.{poll-Meets, run_step-Meets}
use go_orchestrator.Engine.Safety.Undo.{current-Meets}
use go_orchestrator.Engine.Safety.Stops.{Ready}
use go_orchestrator.Engine.Safety.Abort.{abort-Meets}
use go_orchestrator.Engine.Safety.Outcomes.{
  IsGoing, Ready-Stopped, IsInside, move_on, step_on-Meets, NextEnds, after_step-Meets,
}

module _ {W D : Type 0} (rs : Run W D) (ctx : Context) (n : ℕ)
    (sized : length rs.definition.steps ≡ n) where
  Then-Finds :
      (i : ℕ) (v : Shape) (m : M W D (Option Error))
      → IsInside n i StepStatus.running (v.0, set v.1 i StepStatus.running)
      → Meets n v m (Then (v.0, set v.1 i StepStatus.running))
      → Meets n v m (Finds (IsInside n i StepStatus.running))
  Then-Finds i v m k = weaken-Meets n v m _ (Finds (IsInside n i StepStatus.running)) found
    where
      found :
          (e : Option Error) (s : State W D)
          → Then (v.0, set v.1 i StepStatus.running) e s
          → Finds (IsInside n i StepStatus.running) e s
      found none s h = rw h k
      found (some e) s h = h

  -- The last transition of a run that went well.
  finish-Meets :
      (v : Shape) {m : M W D (Option Error)}
      → IsSound n (Status.completed, v.1)
      → Meets n v m (Then (Status.completed, v.1))
      → Meets n v m (Ended n)
  finish-Meets v {m} sound = weaken-Meets n v m _ (Ended n) found
    where
      found : (e : Option Error) (s : State W D) → Then (Status.completed, v.1) e s → Ended n e s
      found none s h = (ap (λ (u : Shape). u.0) h, rw h sound)
      found (some e) s h = inr h

  begin_step-Meets :
      (i : ℕ) (st : StepStatus) (v : Shape)
      → (st ≡ StepStatus.pending) ⊎ (st ≡ StepStatus.running)
      → IsInside n i st v
      → Meets n v (begin_step rs ctx i st) (Finds (IsInside n i StepStatus.running))
  unfolding begin_step can_transition_step_status
  begin_step-Meets i StepStatus.pending v h m =
      Then-Finds i v (transition_step rs ctx i StepStatus.running)
        (move_on n i StepStatus.pending StepStatus.running v m)
        (step_on-Meets rs ctx n sized i StepStatus.pending StepStatus.running v refl refl m)
  begin_step-Meets i StepStatus.running v h m = record { apply = λ s e safe. (safe, rw e m) }
  begin_step-Meets i StepStatus.succeeded v h m = absurd (ground arith)
  begin_step-Meets i StepStatus.failed v h m = absurd (ground arith)
  begin_step-Meets i StepStatus.compensating v h m = absurd (ground arith)
  begin_step-Meets i StepStatus.compensated v h m = absurd (ground arith)
  begin_step-Meets i StepStatus.compensation_failed v h m = absurd (ground arith)

  -- The round of a step that has a status to begin with.
  round-Meets :
      (i : ℕ) (st : StepStatus) (late : SagaTimeout) (step : StepDefinition W D) (x : Option D)
      (next : Option D → M W D (Option Error)) (v : Shape)
      → (st ≡ StepStatus.pending) ⊎ (st ≡ StepStatus.running)
      → IsInside n i st v
      → is_some step.action ≡ true
      → NextEnds n i next
      → Meets n v (forward_step rs ctx late i step x next none) (Ended n)
  unfolding forward_step
  round-Meets i st late step x next v h m act rest =
      bind-Meets n v v (set_current step.name) _ (Ended n) (current-Meets rs ctx n step.name v) λ _.
        get_step-Meets i st n v _ (Ended n) (Middle-get i st v.1 m.middle) λ y here.
          try_some-Meets n v (begin_step rs ctx i y.status)
            (run_step rs ctx late i step x >>= after_step rs ctx i next)
            (IsInside n i StepStatus.running) (Ended n) (λ e s b. inr b)
            (begin_step-Meets i y.status v (rw here h) (rw here m))
            (λ w m'.
              bind-Meets n w w (run_step rs ctx late i step x) (after_step rs ctx i next) (Ended n)
                (run_step-Meets rs n w ctx late i StepStatus.running step x act
                  (Middle-get i StepStatus.running w.1 m'.middle))
                (λ r. after_step-Meets rs ctx n sized i next r w m' rest))

  forward_step-Meets :
      (i : ℕ) (late : SagaTimeout) (step : StepDefinition W D) (x : Option D)
      (next : Option D → M W D (Option Error)) (c : Option Error) (v : Shape)
      → IsGoing n i v
      → i < n
      → is_some step.action ≡ true
      → NextEnds n i next
      → Meets n v (forward_step rs ctx late i step x next c) (Ended n)
  unfolding forward_step
  forward_step-Meets i late step x next (some why) v g h act rest =
      bind-Meets n v v (set_current "") _ (Ended n) (current-Meets rs ctx n "" v)
        (λ _. abort-Meets rs ctx n sized i why v g.going g.len (Ready-Stopped n i v g h))
  forward_step-Meets i late step x next none v g h act rest = by_ready g.ready
    where
      by_ready : Ready i v.1 → Meets n v (forward_step rs ctx late i step x next none) (Ended n)
      by_ready (inl f) =
          round-Meets i StepStatus.pending late step x next v (inl refl)
            (record {
              inside = g.going;
              len = g.len;
              middle = Front-Middle i v.1 f (omega (arith, g.len));
            })
            act rest
      by_ready (inr m) =
          round-Meets i StepStatus.running late step x next v (inr refl)
            (record { inside = g.going; len = g.len; middle = m }) act rest

  complete-Meets :
      (i : ℕ) (x : Option D) (v : Shape)
      → IsGoing n i v
      → i ≡ n
      → Meets n v (complete rs ctx x) (Ended n)
  unfolding complete can_transition_status
  complete-Meets i x v g all = completed (succeeded g.ready)
    where
      succeeded : Ready i v.1 → AllSucceeded v.1
      succeeded (inl f) = Front-AllSucceeded i v.1 f (omega (arith, g.len))
      succeeded (inr m) = absurd (omega (arith, Middle-lt i StepStatus.running v.1 m, g.len))

      completed : AllSucceeded v.1 → Meets n v (complete rs ctx x) (Ended n)
      completed done =
          bind-Meets n v v (put_exec (λ exec. record exec { current_step = ""; output = x })) _
            (Ended n) (record { apply = λ s e safe. (safe, e) })
            (λ _.
              finish-Meets v (record { sized = g.len; fits = done })
                (transition_exec-Meets rs ctx Status.completed n v (rw g.going)
                  (record { sized = g.len; fits = done })))

  pub forward_loop-Meets :
      (rest : List (StepDefinition W D)) (late : SagaTimeout) (i : ℕ) (x : Option D) (v : Shape)
      → HaveActions rest
      → i + length rest ≡ n
      → IsGoing n i v
      → Meets n v (forward_loop rest rs ctx late i x) (Ended n)
  unfolding forward_loop
  forward_loop-Meets [] late i x v acts all g = complete-Meets i x v g (omega arith)
  forward_loop-Meets (step ∷ rest) late i x v acts all g =
      bind-Meets n v v (poll rs.runtime ctx) _ (Ended n) (poll-Meets rs n v ctx) λ c.
        forward_step-Meets i late step x (forward_loop rest rs ctx late (suc i)) c v g (omega arith)
          acts.0 (λ out w g'. forward_loop-Meets rest late (suc i) out w acts.1 (omega arith) g')
