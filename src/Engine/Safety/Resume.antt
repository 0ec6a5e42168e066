-- ===== src/Engine/Safety/Resume.antt =====
-- The safety of resumeRunning, resume and Execute of execute.go.
use Prim.Native.String.{◌++◌}
use go_orchestrator.Prelude.{
  ℕ, zero, suc, String, ◌+◌, ◌≤◌, ◌≡◌, refl, ap, ◌∙◌, inl, inr, false, Option, none, some, subst,
  sym, List, [], ◌∷◌, All, arith, length, drop,
}
use go_orchestrator.Prelude.Int.{pos, leb_ℤ}
use go_orchestrator.Status.{Status, StepStatus, is_terminal, can_transition_status}
use go_orchestrator.Errors.{Error, step_error, message}
use go_orchestrator.Context.{Context}
use go_orchestrator.Execution.{Execution, StepExecution}
use go_orchestrator.Definition.{StepDefinition}
use go_orchestrator.Definition.Names.{HaveActions}
use go_orchestrator.Engine.Monad.{M, Run, State, Outcome, ok, panic}
use go_orchestrator.Engine.Notify.{start_span, end_span, span_context}
use go_orchestrator.Engine.Persist.{transition_exec}
use go_orchestrator.Engine.Attempts.{SagaTimeout}
use go_orchestrator.Engine.Running.{find_failed, find_start, resume_running_with, resume_running}
use go_orchestrator.Engine.Resume.{
  dispatch, run_untimed, run_with_timeout, run_timed, deferred, run_spanned,
}
use go_orchestrator.Engine.Shapes.{
  Shape, shape, statuses, IsSound, Fits, Untouched, Forward, Front-le, Middle-lt,
}
use go_orchestrator.Engine.Logic.{Ensures, IsSafe, Meets, bind-Meets, try-Meets, if-Meets, Ended}
use go_orchestrator.Engine.Safety.Persist.{
  Quiet, transition_exec-Meets, start_span-Quiet, end_span-Quiet, Quiet-Meets,
}
use go_orchestrator.Engine.Safety.Compensate.{resume_compensating-Meets}
use go_orchestrator.Engine.Safety.Stops.{Ready, find_failed-Stopped, find_start-Ready}
use go_orchestrator.Engine.Safety.Abort.{abort-Meets}
use go_orchestrator.Engine.Safety.Forward.{forward_loop-Meets}

module _ {W D : Type 0} where
  drop-HaveActions :
      (k : ℕ) (l : List (StepDefinition W D)) → HaveActions l → HaveActions (drop k l)
  drop-HaveActions zero l h = h
  drop-HaveActions (suc k) [] h = tt
  drop-HaveActions (suc k) (s ∷ l) h = drop-HaveActions k l h.1

  length-drop :
      (k : ℕ) (l : List (StepDefinition W D)) → k ≤ length l → k + length (drop k l) ≡ length l
  length-drop zero l h = omega arith
  length-drop (suc k) [] h = elim h [ ]
  length-drop (suc k) (s ∷ l) h = omega (arith, length-drop k l (omega arith))

-- An execution that has not begun can begin.
begin : (l : List StepStatus) → Untouched l → Forward l
begin [] u = tt
begin (s ∷ l) u = rw u.0 u.1

module _ {W D : Type 0} (rs : Run W D) (ctx : Context) (n : ℕ)
    (sized : length rs.definition.steps ≡ n) (acts : HaveActions rs.definition.steps) where
  Forward-of :
      (exec : Execution D) (v : Shape)
      → shape exec ≡ v
      → v.0 ≡ Status.running
      → IsSound n v
      → Forward (statuses exec.steps)
  Forward-of exec v e running sound =
      rw (ap (λ (u : Shape). u.1) e) (subst (λ (st : Status). Fits st v.1) running sound.fits)

  Ready-le :
      (j : ℕ) (l : List StepStatus) → Ready j l → length l ≡ n → j ≤ length rs.definition.steps
  Ready-le j l (inl f) len = omega (arith, Front-le j l f, sized)
  Ready-le j l (inr m) len = omega (arith, Middle-lt j StepStatus.running l m, sized)

  resume_running_with-Meets :
      (late : SagaTimeout) (exec : Execution D) (v : Shape) (o : Option (ℕ × StepExecution D))
      → find_failed 0 exec.steps ≡ o
      → shape exec ≡ v
      → v.0 ≡ Status.running
      → IsSound n v
      → Meets n v (resume_running_with rs ctx late exec o) (Ended n)
  unfolding resume_running_with
  resume_running_with-Meets late exec v (some (i, x)) found e running sound =
      let (j, same, stop) =
        find_failed-Stopped 0 exec.steps i x (Forward-of exec v e running sound) found in
      let at : i ≡ j = omega (arith, same) in
      rw at (
        abort-Meets rs ctx n sized j (step_error x.name (message x.error)) v running sound.sized
          (rw (ap (λ (u : Shape). u.1) e) at stop))
  resume_running_with-Meets late exec v none found e running sound =
      let (j, same, ready) =
        find_start-Ready 0 exec.input exec.steps (Forward-of exec v e running sound) found in
      let at : (find_start 0 exec.input exec.steps).0 ≡ j = omega (arith, same) in
      rw at (
        forward_loop-Meets rs ctx n sized (drop j rs.definition.steps) late j
          (find_start 0 exec.input exec.steps).1 v (drop-HaveActions j rs.definition.steps acts)
          (length-drop j rs.definition.steps
              (Ready-le j v.1 (rw (ap (λ (u : Shape). u.1) e) at ready) sound.sized)
            ∙ sized)
          (record {
            going = running;
            len = sound.sized;
            ready = rw (ap (λ (u : Shape). u.1) e) at ready;
          }))

  resume_running-Meets :
      (late : SagaTimeout) (v : Shape)
      → v.0 ≡ Status.running
      → IsSound n v
      → Meets n v (resume_running rs ctx late) (Ended n)
  unfolding resume_running
  resume_running-Meets late v running sound = record {
    apply = λ s e safe.
        (resume_running_with-Meets late s.exec v (find_failed 0 s.exec.steps) refl e running
            sound).apply
          s e safe;
  }

  -- The `switch` of `resume`, from a status that is not terminal.
  dispatch-Meets :
      (late : SagaTimeout) (v : Shape) (st : Status)
      → v.0 ≡ st
      → is_terminal st ≡ false
      → IsSound n v
      → Meets n v (dispatch rs ctx late st) (Ended n)
  unfolding dispatch can_transition_status
  dispatch-Meets late v Status.pending e live sound =
      try-Meets n v (Status.running, v.1) (transition_exec rs ctx Status.running)
        (resume_running rs ctx late) (Ended n) (λ x s b. inr b)
        (transition_exec-Meets rs ctx Status.running n v (rw e) running)
        (resume_running-Meets late (Status.running, v.1) refl running)
    where
      running : IsSound n (Status.running, v.1)
      running = record {
        sized = sound.sized;
        fits = begin v.1 (subst (λ (st : Status). Fits st v.1) e sound.fits);
      }
  dispatch-Meets late v Status.running e live sound = resume_running-Meets late v e sound
  dispatch-Meets late v Status.compensating e live sound =
      resume_compensating-Meets rs ctx n v
        (record {
          undoing = e;
          sized = sound.sized;
          backward = subst (λ (st : Status). Fits st v.1) e sound.fits;
        })
        sized
  dispatch-Meets late v Status.completed e live sound = cc
  dispatch-Meets late v Status.failed e live sound = cc
  dispatch-Meets late v Status.compensated e live sound = cc
  dispatch-Meets late v Status.compensation_failed e live sound = cc

module _ {W D : Type 0} where
  -- Only the execution and the calls matter to how a run has ended.
  pub Ended-Quiet :
      (n : ℕ) (e : Option Error) (s t : State W D)
      → Quiet s tt t
      → All (IsSafe n) s.calls × Ended n e s
      → All (IsSafe n) t.calls × Ended n e t
  Ended-Quiet n none s t q h = (rw q.1 h.0, (rw q.0 h.1.0, rw q.0 h.1.1))
  Ended-Quiet n (some e) s t q h = (rw q.1 h.0, ended h.1)
    where
      ended : Ended n (some e) s → Ended n (some e) t
      ended (inl x) = inl (rw q.0 x.0, rw q.0 x.1, rw q.0 x.2)
      ended (inr b) = inr (rw q.1 b)

  -- What `defer` runs does not change how the run has ended.
  pub deferred-Ensures :
      (n : ℕ) (last : M W D (Unit {0})) (r : Outcome (Option Error) × State W D)
      → ((s : State W D) → Quiet s tt (last s).1)
      → Ensures (λ e s. All (IsSafe n) s.calls × Ended n e s) r
      → Ensures (λ e s. All (IsSafe n) s.calls × Ended n e s) (deferred last r)
  deferred-Ensures n last (ok e, s) q h = Ended-Quiet n e s (last s).1 (q s) h
  deferred-Ensures n last (panic p, s) q h = h

  pub Quiet-state :
      (s : State W D) (r : Outcome (Unit {0}) × State W D) → Ensures (Quiet s) r → Quiet s tt r.1
  Quiet-state s (ok a, t) q = q
  Quiet-state s (panic p, t) q = absurd q

module _ {W D : Type 0} (rs : Run W D) (n : ℕ) (sized : length rs.definition.steps ≡ n)
    (acts : HaveActions rs.definition.steps) (v : Shape) (live : is_terminal v.0 ≡ false)
    (sound : IsSound n v) where
  dispatched :
      (ctx : Context) (late : SagaTimeout) (s : State W D)
      → shape s.exec ≡ v
      → All (IsSafe n) s.calls
      → (p : ℕ) (w : W)
      → Ensures
          (λ e t. All (IsSafe n) t.calls × Ended n e t)
          (dispatch rs ctx late s.exec.status (record s { world = w; next_pointer = p }))
  dispatched ctx late s e safe p w =
      let at : v.0 ≡ s.exec.status = sym (ap (λ (u : Shape). u.0) e) in
      (dispatch-Meets rs ctx n sized acts late v s.exec.status at
          (subst (λ (st : Status). is_terminal st ≡ false) at live) sound).apply
        (record s { world = w; next_pointer = p }) e safe

  run_timed-Meets : (ctx : Context) → Meets n v (run_timed rs ctx) (Ended n)
  unfolding run_timed
  run_timed-Meets ctx =
      if-Meets n v (leb_ℤ rs.definition.timeout (pos 0)) (run_untimed rs ctx)
        (run_with_timeout rs ctx) (Ended n)
        (λ _. record { apply = λ s e safe. dispatched ctx _ s e safe _ _ })
        (λ _. record { apply = λ s e safe. dispatched _ _ s e safe _ _ })

  pub run_spanned-Meets : (ctx : Context) → Meets n v (run_spanned rs ctx) (Ended n)
  unfolding run_spanned
  run_spanned-Meets ctx = record {
    apply = λ s e safe.
        deferred-Ensures n (end_span rs ctx name) _
          (λ t. Quiet-state t (end_span rs ctx name t) (end_span-Quiet rs ctx name t))
          ((bind-Meets n v v (start_span rs ctx name) (λ _. run_timed rs (span_context rs ctx name))
              (Ended n) (Quiet-Meets n v (start_span rs ctx name) (start_span-Quiet rs ctx name))
              (λ _. run_timed-Meets (span_context rs ctx name))).apply
            s e safe);
  }
    where
      name : String
      name = "saga:" ++ rs.definition.name
