-- ===== src/Engine/Safety/Persist.antt =====
-- The safety of save, transitionExec and transitionStep of execute.go, and of the observers.
use go_orchestrator.Prelude.{
  ℕ, String, ◌≡◌, sym, subst, ap, true, none, some, All, arith, set, get_elem?, get_elem?-set_self,
}
use go_orchestrator.Status.{Status, StepStatus, can_transition_status, can_transition_step_status}
use go_orchestrator.Context.{Context}
use go_orchestrator.Events.{Event}
use go_orchestrator.Execution.{
  Execution, StepExecution, transition, step_transition, enter, enter_step,
}
use go_orchestrator.Engine.Monad.{
  M, Run, State, Outcome, ok, panic, ◌>>=◌, ◌>>◌, pure, get_step, put_step, now, after,
}
use go_orchestrator.Engine.Notify.{
  start_span, end_span, publish_and_log, observe_end, notify_exec, notify_step,
}
use go_orchestrator.Engine.Persist.{save, transition_exec, transition_step, accept_step}
use go_orchestrator.Engine.Shapes.{Shape, shape, IsSound, statuses-set, get_elem?-statuses}
use go_orchestrator.Engine.Logic.{Ensures, IsSafe, Meets, Post, At, Then, bind-Meets, try-Meets}

module _ {D : Type 0} where
  transition_lem :
      (e : Execution D) (to : Status) (at : ℕ)
      → can_transition_status e.status to ≡ true
      → transition e to at ≡ (enter to at e, none)
  unfolding transition
  transition_lem e to at h = rw h

  pub enter_step_lem :
      (to : StepStatus) (at : ℕ) (x : StepExecution D) → (enter_step to at x).status ≡ to
  enter_step_lem to at x = ground arith

  pub step_transition_lem :
      (x : StepExecution D) (to : StepStatus) (at : ℕ)
      → can_transition_step_status x.status to ≡ true
      → step_transition x to at ≡ (enter_step to at x, none)
  unfolding step_transition
  step_transition_lem x to at h = rw h

module _ {W D : Type 0} where
  -- The observers leave the execution and the calls as they are.
  abbrev pub Quiet : {A : Type 0} → State W D → A → State W D → Type 0
  Quiet s a s' = (s'.exec ≡ s.exec) × (s'.calls ≡ s.calls)

  publish_and_log-Quiet :
      (rs : Run W D) (ctx : Context) (ev : Event) (s : State W D)
      → Ensures (Quiet s) (publish_and_log rs ctx ev s)
  unfolding publish_and_log
  publish_and_log-Quiet rs ctx ev s = ground arith

  observe_end-Quiet :
      (rs : Run W D) (exec : Execution D) (to : Status) (s : State W D)
      → Ensures (Quiet s) (observe_end rs exec to s)
  unfolding observe_end
  observe_end-Quiet rs exec to s = ground arith

  pub start_span-Quiet :
      (rs : Run W D) (ctx : Context) (name : String) (s : State W D)
      → Ensures (Quiet s) (start_span rs ctx name s)
  unfolding start_span
  start_span-Quiet rs ctx name s = ground arith

  pub end_span-Quiet :
      (rs : Run W D) (ctx : Context) (name : String) (s : State W D)
      → Ensures (Quiet s) (end_span rs ctx name s)
  unfolding end_span
  end_span-Quiet rs ctx name s = ground arith

  pub notify_exec-Quiet :
      (rs : Run W D) (ctx : Context) (to : Status) (s : State W D)
      → Ensures (Quiet s) (notify_exec rs ctx to s)
  unfolding notify_exec publish_and_log observe_end
  notify_exec-Quiet rs ctx to s = ground arith

  pub notify_step-Quiet :
      (rs : Run W D) (ctx : Context) (x : StepExecution D) (to : StepStatus) (s : State W D)
      → Ensures (Quiet s) (notify_step rs ctx x to s)
  unfolding notify_step publish_and_log
  notify_step-Quiet rs ctx x to s = ground arith

  save-Meets :
      (rs : Run W D) (ctx : Context) (n : ℕ) (v : Shape)
      → IsSound n v
      → Meets n v (save rs ctx) (Then v)
  unfolding save
  save-Meets rs ctx n v sound = record { apply = λ s e safe. ground arith }

  pub Quiet-Meets :
      {A : Type 0} (n : ℕ) (v : Shape) (m : M W D A)
      → ((s : State W D) → Ensures (Quiet s) (m s))
      → Meets n v m (At v)
  Quiet-Meets {A = A} n v m q = record { apply = λ s e safe. keep s e safe (m s) (q s) }
    where
      keep :
          (s : State W D)
          → shape s.exec ≡ v
          → All (IsSafe n) s.calls
          → (r : Outcome A × State W D) → Ensures (Quiet s) r
          → Ensures (λ a s'. All (IsSafe n) s'.calls × (shape s'.exec ≡ v)) r
      keep s e safe (ok a, s') h = (rw h.1 safe, rw h.0 e)
      keep s e safe (panic p, s') h = h

  pub done-Meets : (n : ℕ) (v : Shape) → Meets n v (pure {W = W} {D = D} none) (Then v)
  done-Meets n v = record { apply = λ s e safe. (safe, e) }

  -- An allowed transition to a status that fits is made and saved.
  pub transition_exec-Meets :
      (rs : Run W D) (ctx : Context) (to : Status) (n : ℕ) (v : Shape)
      → can_transition_status v.0 to ≡ true
      → IsSound n (to, v.1)
      → Meets n v (transition_exec rs ctx to) (Then (to, v.1))
  unfolding transition_exec
  transition_exec-Meets rs ctx to n v allowed sound = record {
    apply = λ s e safe.
        let w = rs.runtime.tick s.world in
        rw (transition_lem s.exec to (rs.runtime.now w) (rw (ap (λ (u : Shape). u.0) e) allowed)) (
          (try-Meets n (to, v.1) (to, v.1) (save rs ctx) (do notify_exec rs ctx to; pure none)
              (Then (to, v.1)) (λ x t h. h) (save-Meets rs ctx n (to, v.1) sound)
              (bind-Meets n (to, v.1) (to, v.1) (notify_exec rs ctx to) _ _
                (Quiet-Meets n (to, v.1) (notify_exec rs ctx to) (notify_exec-Quiet rs ctx to))
                (λ _. done-Meets n (to, v.1)))).apply
            (record s { world = w; exec = enter to (rs.runtime.now w) s.exec })
            (ap (λ (u : Shape). (to, u.1)) e) safe);
  }

  pub get_step_lem :
      (i : ℕ) (x : StepExecution D) (s : State W D)
      → get_elem? s.exec.steps i ≡ some x
      → get_step i s ≡ (ok x, s)
  get_step_lem i x s h = ground arith

  pub get_step-Meets :
      {A : Type 0} (i : ℕ) (st : StepStatus) (n : ℕ) (v : Shape) (f : StepExecution D → M W D A)
      (Q : Post W D A)
      → get_elem? v.1 i ≡ some st
      → ((x : StepExecution D) → x.status ≡ st → Meets n v (f x) Q)
      → Meets n v (get_step i >>= f) Q
  get_step-Meets {A = A} i st n v f Q found h = record {
    apply = λ s e safe.
        let (x, here, status) =
          get_elem?-statuses s.exec.steps i st (rw (← ap (λ (u : Shape). u.1) e) at found) in
        subst
          (λ (r : Outcome (StepExecution D) × State W D).
            Ensures (λ a t. All (IsSafe n) t.calls × Q a t) (after r f))
          (sym (get_step_lem i x s here)) ((h x status).apply s e safe);
  }

  pub put_step-Meets :
      (i : ℕ) (x : StepExecution D) (st : StepStatus) (n : ℕ) (v : Shape)
      → x.status ≡ st
      → Meets n v (put_step {W = W} i x) (At (v.0, set v.1 i st))
  put_step-Meets i x st n v h = record {
    apply = λ s e safe.
        (safe, rw (statuses-set s.exec.steps i x, h) (ap (λ (u : Shape). (u.0, set u.1 i st)) e));
  }

  pub now-Meets : (rs : Run W D) (n : ℕ) (v : Shape) → Meets n v (now {D = D} rs.runtime) (At v)
  now-Meets rs n v = record { apply = λ s e safe. (safe, e) }

  accept_step-Meets :
      (i : ℕ) (x : StepExecution D) (to : StepStatus) (at n : ℕ) (v : Shape)
      → can_transition_step_status x.status to ≡ true
      → Meets n v (accept_step {W = W} i (step_transition x to at)) (At (v.0, set v.1 i to))
  accept_step-Meets i x to at n v allowed =
      rw (step_transition_lem x to at allowed)
        (put_step-Meets i (enter_step to at x) to n v (enter_step_lem to at x))

  -- An allowed transition of the step at an index, after which the shape fits.
  pub transition_step-Meets :
      (rs : Run W D) (ctx : Context) (i : ℕ) (from to : StepStatus) (n : ℕ) (v : Shape)
      → get_elem? v.1 i ≡ some from
      → can_transition_step_status from to ≡ true
      → IsSound n (v.0, set v.1 i to)
      → Meets n v (transition_step rs ctx i to) (Then (v.0, set v.1 i to))
  unfolding transition_step
  transition_step-Meets rs ctx i from to n v found allowed sound =
      get_step-Meets i from n v _ (Then w) found λ x here.
        bind-Meets n v v (now rs.runtime) _ (Then w) (now-Meets rs n v) λ at.
          bind-Meets n v w (accept_step i (step_transition x to at)) _ (Then w)
            (accept_step-Meets i x to at n v (rw here allowed))
            (λ _.
              try-Meets n w w (save rs ctx) _ (Then w) (λ y t h. h) (save-Meets rs ctx n w sound)
                (get_step-Meets i to n w _ (Then w) (get_elem?-set_self v.1 i to found) λ y _.
                  bind-Meets n w w (notify_step rs ctx y to) _ (Then w)
                    (Quiet-Meets n w (notify_step rs ctx y to) (notify_step-Quiet rs ctx y to))
                    (λ _. done-Meets n w)))
    where
      w : Shape
      w = (v.0, set v.1 i to)
