-- ===== src/Engine/Kept/Notify.antt =====
-- What the observers of execute.go keep.
use go_orchestrator.Prelude.{
  ℕ, String, ◌≡◌, refl, sym, Bool, true, false, Option, none, some, List, [], ◌∷◌, get_elem?,
  if◌then◌else◌,
}
use go_orchestrator.Prelude.Int.{ℤ, sub_ℕ}
use go_orchestrator.Status.{Status, StepStatus, status_text, is_terminal}
use go_orchestrator.Context.{Context}
use go_orchestrator.Events.{Event, EventType, saga_event_type, step_event_type}
use go_orchestrator.Execution.{Execution, StepExecution}
use go_orchestrator.Engine.Monad.{
  M, Run, State, ◌>>=◌, ◌>>◌, pure, outside, ask_outside, now, poll, record_event,
}
use go_orchestrator.Engine.Notify.{
  start_span, end_span, publish, log_event, inc_event_counter, observe_duration, publish_and_log,
  observe_end, notify_exec, notify_step, exec_event, step_event,
}
use go_orchestrator.Engine.Kept.{
  Identity, IsNewest, Reports, of_exec, of_step, OnSome, IsMoved, IsKept, Keeps, pure-Keeps,
  bind-Keeps,
}

pub always : {A : Type 0} (o : Option A) → OnSome (λ _. Unit) o
always none = tt
always (some a) = tt

pub itself : {A : Type 0} (o : Option A) → OnSome (λ a. o ≡ some a) o
itself none = tt
itself (some a) = refl

module _ {W D : Type 0} {v : Identity D} {Holds : State W D → Type 0} where
  -- The two ways to go on with a part that may be missing.
  pub maybe-Keeps :
      {A B : Type 0} (P : A → Type 0) (o : Option A) (n : M W D B) (f : A → M W D B)
      → OnSome P o
      → Keeps v Holds n
      → ((a : A) → P a → Keeps v Holds (f a))
      → Keeps v Holds (elim o [ none ↦ n | some a ↦ f a ])
  maybe-Keeps P none n f p h g = h
  maybe-Keeps P (some a) n f p h g = g a p

  pub if-Keeps :
      {A : Type 0} (b : Bool) (x y : M W D A)
      → Keeps v Holds x
      → Keeps v Holds y
      → Keeps v Holds (if b then x else y)
  if-Keeps true x y p q = p
  if-Keeps false x y p q = q

module _ {W D : Type 0} {rs : Run W D} {v : Identity D} {Same : W → W → Type 0}
    {Holds : State W D → Type 0} (k : IsMoved rs Same Holds) where
  pub outside-Keeps : (f : W → W) → ((w : W) → Same w (f w)) → Keeps v Holds (outside f)
  outside-Keeps f h = record { apply = λ s g. (g.0, k.moves s (f s.world) (h s.world) g.1) }

  pub ask_outside-Keeps :
      {A : Type 0} (f : W → A × W) → ((w : W) → Same w (f w).1) → Keeps v Holds (ask_outside f)
  ask_outside-Keeps f h = record { apply = λ s g. (g.0, k.moves s (f s.world).1 (h s.world) g.1) }

  pub now-Keeps : Keeps v Holds (now rs.runtime)
  now-Keeps = record {
    apply = λ s g. (g.0, k.moves s (rs.runtime.tick s.world) (k.apart.tick s.world) g.1);
  }

  pub poll-Keeps : (ctx : Context) → Keeps v Holds (poll rs.runtime ctx)
  poll-Keeps ctx = record {
    apply = λ s g. (g.0, k.moves s (rs.runtime.tick s.world) (k.apart.tick s.world) g.1);
  }

  pub start_span-Keeps : (ctx : Context) (name : String) → Keeps v Holds (start_span rs ctx name)
  unfolding start_span
  start_span-Keeps ctx name =
      maybe-Keeps _ rs.definition.tracer (pure tt) _ k.apart.starts (pure-Keeps v Holds tt)
        (λ t h. outside-Keeps (t.start_span ctx name) (h ctx name))

  pub end_span-Keeps : (ctx : Context) (name : String) → Keeps v Holds (end_span rs ctx name)
  unfolding end_span
  end_span-Keeps ctx name =
      maybe-Keeps _ rs.definition.tracer (pure tt) _ k.apart.ends (pure-Keeps v Holds tt)
        (λ t h. outside-Keeps (t.end_span ctx name) (h ctx name))

  log_event-Keeps : (ctx : Context) (ev : Event) → Keeps v Holds (log_event rs ctx ev)
  unfolding log_event
  log_event-Keeps ctx ev =
      maybe-Keeps _ rs.definition.logger (pure tt) _ k.apart.logger (pure-Keeps v Holds tt)
        (λ l h. outside-Keeps _ (h ctx _ _ _))

  inc_event_counter-Keeps : (ev : Event) → Keeps v Holds (inc_event_counter rs ev)
  unfolding inc_event_counter
  inc_event_counter-Keeps ev =
      maybe-Keeps _ rs.definition.metrics (pure tt) _ k.apart.counters (pure-Keeps v Holds tt)
        (λ m h. outside-Keeps _ (h _ _))

  observe_duration-Keeps :
      (name : String) (n : ℤ) (l : List String) → Keeps v Holds (observe_duration rs name n l)
  unfolding observe_duration
  observe_duration-Keeps name n l =
      maybe-Keeps _ rs.definition.metrics (pure tt) _ k.apart.durations (pure-Keeps v Holds tt)
        (λ m h. outside-Keeps _ (h name n l))

  observe_end-Keeps : (x : Execution D) (to : Status) → Keeps v Holds (observe_end rs x to)
  unfolding observe_end
  observe_end-Keeps x to =
      maybe-Keeps (λ _. Unit) x.started_at (pure tt) _ (always x.started_at) (pure-Keeps v Holds tt)
        (λ t _.
          if-Keeps (is_terminal to) (now rs.runtime >>= observed t) (pure tt)
            (bind-Keeps v Holds (now rs.runtime) (observed t) now-Keeps
              (λ at. observe_duration-Keeps "saga_duration_seconds" (sub_ℕ at t) (labels)))
            (pure-Keeps v Holds tt))
    where
      labels : List String
      labels = "saga" ∷ x.saga_name ∷ "status" ∷ status_text to ∷ []

      observed : ℕ → ℕ → M W D (Unit {0})
      observed t at = observe_duration rs "saga_duration_seconds" (sub_ℕ at t) labels

module _ {W D : Type 0} {rs : Run W D} {v : Identity D} {Same : W → W → Type 0}
    {Holds : State W D → Type 0} (k : IsKept rs v Same Holds) (x : Execution D) where
  -- `Holds`, just after this execution was saved.
  abbrev pub Noted : State W D → Type 0
  Noted s = Holds s × (s.exec ≡ x) × IsNewest x s.calls

  Noted-IsMoved : IsMoved rs Same Noted
  Noted-IsMoved = record {
    apart = k.world.apart;
    moves = λ s w h n. (k.world.moves s w h n.0, n.1, n.2);
  }

  record_event-Keeps : (ev : Event) → Reports x ev → Keeps v Noted (record_event ev)
  record_event-Keeps ev h = record {
    apply = λ s g. (g.0, (k.publishes s ev g.0 (rw g.1.1 g.1.2) (rw g.1.1 h) g.1.0, g.1.1, g.1.2));
  }

  publish-Keeps : (ctx : Context) (ev : Event) → Reports x ev → Keeps v Noted (publish rs ctx ev)
  unfolding publish
  publish-Keeps ctx ev h =
      maybe-Keeps _ rs.definition.publisher (pure tt) _ k.world.apart.publisher
        (pure-Keeps v Noted tt)
        (λ p a.
          bind-Keeps v Noted (ask_outside (p.publish ctx ev)) (λ _. record_event ev)
            (ask_outside-Keeps Noted-IsMoved (p.publish ctx ev) (a ctx ev))
            (λ _. record_event-Keeps ev h))

  publish_and_log-Keeps :
      (ctx : Context) (ev : Event) → Reports x ev → Keeps v Noted (publish_and_log rs ctx ev)
  unfolding publish_and_log
  publish_and_log-Keeps ctx ev h =
      bind-Keeps v Noted (publish rs ctx ev) _ (publish-Keeps ctx ev h) (λ _.
        bind-Keeps v Noted (log_event rs ctx ev) _ (log_event-Keeps Noted-IsMoved ctx ev)
          (λ _. inc_event_counter-Keeps Noted-IsMoved ev))

  pub notify_exec-Keeps :
      (ctx : Context) (to : Status) → x.status ≡ to → Keeps v Noted (notify_exec rs ctx to)
  unfolding notify_exec
  notify_exec-Keeps ctx to e =
      maybe-Keeps _ (saga_event_type to) (pure tt) _ (itself (saga_event_type to))
        (pure-Keeps v Noted tt)
        (λ type p. record { apply = λ s g. (noticed s.exec type (sym g.1.1) (rw e p)).apply s g })
    where
      noticed :
          (y : Execution D) (type : EventType)
          → x ≡ y
          → saga_event_type x.status ≡ some type
          → Keeps v Noted (
              now rs.runtime >>= λ at.
              publish_and_log rs ctx (exec_event type y at) >> observe_end rs y to)
      noticed y type q p =
          bind-Keeps v Noted (now rs.runtime)
            (λ at. publish_and_log rs ctx (exec_event type y at) >> observe_end rs y to)
            (now-Keeps Noted-IsMoved)
            (λ at.
              bind-Keeps v Noted (publish_and_log rs ctx (exec_event type y at))
                (λ _. observe_end rs y to)
                (publish_and_log-Keeps ctx (exec_event type y at) (rw (sym q) (of_exec type at p)))
                (λ _. observe_end-Keeps Noted-IsMoved y to))

  pub notify_step-Keeps :
      (ctx : Context) (i : ℕ) (y : StepExecution D) (to : StepStatus)
      → get_elem? x.steps i ≡ some y
      → y.status ≡ to
      → Keeps v Noted (notify_step rs ctx y to)
  unfolding notify_step
  notify_step-Keeps ctx i y to found e =
      maybe-Keeps _ (step_event_type to) (pure tt) _ (itself (step_event_type to))
        (pure-Keeps v Noted tt)
        (λ type p. record { apply = λ s g. (noticed s.exec type (sym g.1.1) (rw e p)).apply s g })
    where
      noticed :
          (z : Execution D) (type : EventType)
          → x ≡ z
          → step_event_type y.status ≡ some type
          → Keeps v Noted (now rs.runtime >>= λ at. publish_and_log rs ctx (step_event type z y at))
      noticed z type q p =
          bind-Keeps v Noted (now rs.runtime)
            (λ at. publish_and_log rs ctx (step_event type z y at)) (now-Keeps Noted-IsMoved)
            (λ at.
              publish_and_log-Keeps ctx (step_event type z y at)
                (rw (sym q) (of_step type at i y found p)))
