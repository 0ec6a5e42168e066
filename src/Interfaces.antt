-- ===== src/Interfaces.antt =====
-- What the engine calls and does not implement: store.go, lock.go, observability.go and the
-- interfaces of events.go and retry.go, and Go's clock, contexts and random identifiers. `W` is the
-- world outside the engine; a call takes it and returns it as the call left it.
use go_orchestrator.Prelude.{ℕ, String, Bool, true, false, Option, none, some, List, [], ◌∷◌}
use go_orchestrator.Prelude.Int.{ℤ, pos}
use go_orchestrator.Errors.{Error, Format, execution_not_found}
use go_orchestrator.Context.{Context}
use go_orchestrator.Events.{Event}
use go_orchestrator.Execution.{Execution}

-- Go's runtime. `tick` is what other goroutines do, and how time passes, before the engine next
-- looks at the clock or at a context. `sleep` waits for a positive delay or the end of a context,
-- and says whether the timer's case of the `select` was taken.
pub record Runtime (W : Type 0) : Type 0 where
  pub now : W → ℕ
  pub tick : W → W
  pub caller_ended : W → Option (ℕ × Error)
  pub sleep : Context → ℤ → W → Bool × W
  pub new_id : W → String × W
  pub format : Format

-- `Locker`. The first result of `acquire` is whether the lease is held now.
pub record Locker (W : Type 0) : Type 0 where
  pub acquire : Context → String → String → ℤ → W → (Bool × Option Error) × W
  pub release : Context → String → String → W → Option Error × W

-- `Store`, and the `Locker` that the type assertion finds, if the store is one.
pub record Store (W D : Type 0) : Type 0 where
  pub save : Context → Execution D → W → Option Error × W
  pub get : Context → String → W → (Option (Execution D) × Option Error) × W
  pub locker : Option (Locker W)

pub record Lister (W D : Type 0) : Type 0 where
  pub list_incomplete : Context → W → (List (Execution D) × Option Error) × W

-- `publish` says whether it panicked.
pub record EventPublisher (W : Type 0) : Type 0 where
  pub publish : Context → Event → W → Bool × W

-- `log` is `Logger.Log`, with whether the level is Error and the attributes.
pub record Logger (W : Type 0) : Type 0 where
  pub log : Context → Bool → String → List String → W → W

-- A duration is given in nanoseconds; the conversion to seconds is the only arithmetic left out.
pub record Metrics (W : Type 0) : Type 0 where
  pub inc_counter : String → List String → W → W
  pub observe_duration : String → ℤ → List String → W → W

-- Starting a span, and what its end function does.
pub record Tracer (W : Type 0) : Type 0 where
  pub start_span : Context → String → W → W
  pub end_span : Context → String → W → W

-- `RetryPolicy`. The random numbers that a delay may use are in the world.
pub record RetryPolicy (W : Type 0) : Type 0 where
  pub max_attempts : ℤ
  pub delay : ℤ → W → ℤ × W

module _ {W D : Type 0} where
  -- `noopStore`.
  unfoldable pub noop_store : Store W D
  noop_store = record {
    save = λ ctx exec w. (none, w);
    get = λ ctx id w. ((none, some execution_not_found), w);
    locker = none;
  }

module _ {W : Type 0} where
  -- The rest of a loop over publishers: a panic of one ends the loop.
  abbrev pub unless_panic : Bool × W → (W → Bool × W) → Bool × W
  unless_panic (true, w) rest = (true, w)
  unless_panic (false, w) rest = rest w

  -- The loop of `multiPublisher.Publish`.
  unfoldable pub publish_all : List (EventPublisher W) → Context → Event → W → Bool × W
  publish_all [] ctx ev w = (false, w)
  publish_all (p ∷ publishers) ctx ev w =
      unless_panic (p.publish ctx ev w) (publish_all publishers ctx ev)

  -- `MultiPublisher`.
  abbrev pub multi_publisher : List (EventPublisher W) → EventPublisher W
  multi_publisher publishers = record { publish = publish_all publishers }

-- `DefaultLockTTL`: 30 seconds.
abbrev pub default_lock_ttl : ℤ
default_lock_ttl = pos 30000000000
