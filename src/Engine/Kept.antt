-- ===== src/Engine/Kept.antt =====
-- A way to prove invariants of the engine of execute.go: what every elementary action of a run keeps,
-- every function keeps, whether it returns or panics. The children go through the functions.
pub mod Notify
pub mod Persist
pub mod Transitions
pub mod Attempts
pub mod Undo
pub mod Abort
pub mod Forward
pub mod Resume
pub mod Execute
pub mod Growth
use go_orchestrator.Prelude.{
  ℕ, String, ◌≡◌, sym, subst, ◌⊎◌, Bool, true, Option, none, some, List, [], ◌∷◌, All, get_elem?,
  set, Option-cases,
}
use go_orchestrator.Prelude.Int.{ℤ}
use go_orchestrator.Status.{Status, can_transition_status}
use go_orchestrator.Errors.{Error}
use go_orchestrator.Context.{Context, operation_id_of, operation_id, compensation_operation_id}
use go_orchestrator.Events.{Event, EventType, saga_event_type, step_event_type}
use go_orchestrator.Interfaces.{
  Runtime, Locker, EventPublisher, Logger, Metrics, Tracer, RetryPolicy,
}
use go_orchestrator.Execution.{Execution, StepExecution}
use go_orchestrator.Definition.{StepDefinition, Definition, ActionFunc, CompensateFunc}
use go_orchestrator.Engine.Monad.{
  M, Run, State, Outcome, ok, panic, index_out_of_range, Call, saved, leased, acted, undone, after,
  Panic, pure, throw, ◌>>=◌, unless_error,
}
use go_orchestrator.Engine.Notify.{exec_event, step_event}
use go_orchestrator.Engine.Rollback.Order.{names}
use go_orchestrator.Engine.Persist.{save_error, lease_error}

-- What an execution keeps from its creation on: its ID, its saga, its input, the time of its creation
-- and the names of its steps.
abbrev pub Identity : Type 0 → Type 0
Identity D = String × String × Option D × ℕ × List String

module _ {D : Type 0} where
  abbrev pub identity : Execution D → Identity D
  identity e = (e.id, e.saga_name, e.input, e.created_at, names e.steps)

  -- The newest call is a save of this execution that succeeded.
  abbrev pub IsNewest : Execution D → List (Call D) → Type 0
  IsNewest x (saved y none ∷ calls) = y ≡ x
  IsNewest x _ = ⊥

  -- The event says what status this execution, or a step of it, is in.
  pub data Reports (x : Execution D) : Event → Type 0 where
    of_exec :
        (type : EventType) (at : ℕ)
        → saga_event_type x.status ≡ some type
        → Reports x (exec_event type x at)
    of_step :
        (type : EventType) (at i : ℕ) (s : StepExecution D)
        → get_elem? x.steps i ≡ some s
        → step_event_type s.status ≡ some type
        → Reports x (step_event type x s at)

module _ {W D : Type 0} where
  -- With a locker, the newest call is an acquisition of the lease that succeeded.
  abbrev pub IsLeased : Option (Locker W) → String → List (Call D) → Type 0
  IsLeased none id calls = Unit
  IsLeased (some l) id (leased i none ∷ calls) = i ≡ id
  IsLeased (some l) id _ = ⊥

-- The status stays, or moves on as it is allowed to.
abbrev pub Moves : Status → Status → Type 0
Moves a b = (b ≡ a) ⊎ (can_transition_status a b ≡ true)

-- A property of what is there, if it is.
abbrev pub OnSome : {A : Type 0} → (A → Type 0) → Option A → Type 0
OnSome P none = Unit
OnSome P (some a) = P a

module _ {W : Type 0} (Same : W → W → Type 0) where
  abbrev pub IsPolicyApart : RetryPolicy W → Type 0
  IsPolicyApart p = (n : ℤ) (w : W) → Same w (p.delay n w).1

module _ {W D : Type 0} (Same : W → W → Type 0) where
  -- What a step calls changes the world only as `Same` allows.
  pub record IsStepApart (s : StepDefinition W D) : Type 0 where
    pub action :
        OnSome
          (λ (f : ActionFunc W D). (ctx : Context) (x : Option D) (w : W) → Same w (f ctx x w).1)
          s.action
    pub compensate :
        OnSome
          (λ (f : CompensateFunc W D).
            (ctx : Context) (x : Option D) (w : W) → Same w (f ctx x w).1)
          s.compensate
    pub retry_policy : OnSome (IsPolicyApart Same) s.retry_policy

  -- The same of all that a run calls but `Save` and `Acquire`.
  pub record IsApart (r : Runtime W) (d : Definition W D) (o : Option (Locker W)) : Type 0 where
    pub tick : (w : W) → Same w (r.tick w)
    pub sleep : (ctx : Context) (n : ℤ) (w : W) → Same w (r.sleep ctx n w).1
    pub publisher :
        OnSome
          (λ (p : EventPublisher W).
            (ctx : Context) (ev : Event) (w : W) → Same w (p.publish ctx ev w).1)
          d.publisher
    pub logger :
        OnSome
          (λ (l : Logger W).
            (ctx : Context) (b : Bool) (m : String) (a : List String) (w : W)
            → Same w (l.log ctx b m a w))
          d.logger
    pub counters :
        OnSome
          (λ (m : Metrics W). (n : String) (l : List String) (w : W) → Same w (m.inc_counter n l w))
          d.metrics
    pub durations :
        OnSome
          (λ (m : Metrics W).
            (n : String) (t : ℤ) (l : List String) (w : W) → Same w (m.observe_duration n t l w))
          d.metrics
    pub starts :
        OnSome
          (λ (t : Tracer W). (ctx : Context) (n : String) (w : W) → Same w (t.start_span ctx n w))
          d.tracer
    pub ends :
        OnSome
          (λ (t : Tracer W). (ctx : Context) (n : String) (w : W) → Same w (t.end_span ctx n w))
          d.tracer
    pub releases :
        OnSome
          (λ (l : Locker W).
            (ctx : Context) (id owner : String) (w : W) → Same w (l.release ctx id owner w).1)
          o
    pub delays : IsPolicyApart Same d.retry_policy
    pub steps : All (IsStepApart) d.steps

-- What a run calls, but `Save` and `Acquire`, keeps `Holds`.
pub record IsMoved {W D : Type 0} (rs : Run W D) (Same : W → W → Type 0)
    (Holds : State W D → Type 0) : Type 0 where
  pub apart : IsApart Same rs.runtime rs.definition rs.locker
  pub moves : (s : State W D) (w : W) → Same s.world w → Holds s → Holds (record s { world = w })

-- Every elementary action of a run of the execution with this identity keeps `Holds`. `Same` says how
-- all that the run calls, but `Save` and `Acquire`, changes the world.
pub record IsKept {W D : Type 0} (rs : Run W D) (v : Identity D) (Same : W → W → Type 0)
    (Holds : State W D → Type 0) : Type 0 where
  pub world : IsMoved rs Same Holds
  pub allocates : (s : State W D) (p : ℕ) → Holds s → Holds (record s { next_pointer = p })
  pub changes :
      (s : State W D) (x : Execution D)
      → identity s.exec ≡ v
      → identity x ≡ v
      → Moves s.exec.status x.status
      → Holds s
      → Holds (record s { exec = x })
  pub publishes :
      (s : State W D) (ev : Event)
      → identity s.exec ≡ v
      → IsNewest s.exec s.calls
      → Reports s.exec ev
      → Holds s
      → Holds (record s { events = (ev, s.calls) ∷ s.events })
  pub leases :
      (s : State W D) (l : Locker W) (ctx : Context) (what : String)
      → identity s.exec ≡ v
      → rs.locker ≡ some l
      → Holds s
      → let (e, w) = l.acquire ctx s.exec.id rs.lock_owner rs.definition.lock_ttl s.world in
        Holds (record s {
          world = w;
          calls = leased s.exec.id (lease_error rs.runtime.format what s.exec.id e) ∷ s.calls;
        })
  pub saves :
      (s : State W D) (ctx : Context)
      → identity s.exec ≡ v
      → IsLeased rs.locker s.exec.id s.calls
      → Holds s
      → Holds (record s {
        world = (rs.definition.store.save ctx s.exec s.world).1;
        calls =
            saved s.exec (
              save_error rs.runtime.format s.exec.id
                (rs.definition.store.save ctx s.exec s.world).0)
            ∷ s.calls;
      })
  pub acts :
      (s : State W D) (name : String) (ctx : Context) (x : Option D) (e : Option Error)
      → identity s.exec ≡ v
      → operation_id_of ctx ≡ operation_id s.exec.id name
      → Holds s
      → Holds (record s { calls = acted name ctx x e ∷ s.calls })
  pub undoes :
      (s : State W D) (name : String) (ctx : Context) (x : Option D) (e : Option Error)
      → identity s.exec ≡ v
      → operation_id_of ctx ≡ compensation_operation_id s.exec.id name
      → Holds s
      → Holds (record s { calls = undone name ctx x e ∷ s.calls })

module _ {W D : Type 0} (v : Identity D) (Holds : State W D → Type 0) where
  abbrev pub Good : State W D → Type 0
  Good s = (identity s.exec ≡ v) × Holds s

  -- A function of the engine keeps the identity and `Holds`, whether it returns or panics.
  pub record Keeps {A : Type 0} (m : M W D A) : Type 0 where
    pub apply : (s : State W D) → Good s → Good (m s).1

  pub pure-Keeps : {A : Type 0} (a : A) → Keeps (pure a)
  pure-Keeps a = record { apply = λ s g. g }

  pub throw-Keeps : {A : Type 0} (p : Panic) → Keeps (throw {A = A} p)
  throw-Keeps p = record { apply = λ s g. g }

  pub after-Good :
      {A B : Type 0} (x : Outcome A × State W D) (f : A → M W D B)
      → Good x.1
      → ((a : A) → Keeps (f a))
      → Good (after x f).1
  after-Good (ok a, s) f g h = (h a).apply s g
  after-Good (panic p, s) f g h = g

  pub bind-Keeps :
      {A B : Type 0} (m : M W D A) (f : A → M W D B)
      → Keeps m
      → ((a : A) → Keeps (f a))
      → Keeps (m >>= f)
  bind-Keeps m f p h = record { apply = λ s g. after-Good (m s) f (p.apply s g) h }

  pub unless_error-Keeps :
      (e : Option Error) (rest : M W D (Option Error)) → Keeps rest → Keeps (unless_error e rest)
  unless_error-Keeps none rest h = h
  unless_error-Keeps (some e) rest h = pure-Keeps (some e)

  pub try-Keeps :
      (m rest : M W D (Option Error))
      → Keeps m
      → Keeps rest
      → Keeps (m >>= λ e. unless_error e rest)
  try-Keeps m rest p h =
      bind-Keeps m (λ e. unless_error e rest) p (λ e. unless_error-Keeps e rest h)
