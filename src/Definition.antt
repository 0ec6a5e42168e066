-- ===== src/Definition.antt =====
-- step.go, definition.go and options.go: steps, sagas and how they are put together. Options are
-- functions applied in order. A panic of the builders is a value, and nothing is built then.
pub mod Names
pub mod Options
pub mod Building
use Prim.Native.Char.{Char, code}
use Prim.Native.String
use go_orchestrator.Prelude.{
  ℕ, String, Bool, true, false, not, ◌&&◌, ◌||◌, Option, none, some, List, [], ◌∷◌, ◌++◌, ◌==◌,
  str_eq, leb, any, is_some, if◌then◌else◌,
}
use go_orchestrator.Prelude.Int.{ℤ, pos}
use go_orchestrator.Errors.{Error}
use go_orchestrator.Context.{Context}
use go_orchestrator.Interfaces.{
  Store, EventPublisher, Logger, Metrics, Tracer, RetryPolicy, noop_store, default_lock_ttl,
}
use go_orchestrator.Retry.{no_retry}

-- `ActionFunc` and `CompensateFunc`.
abbrev pub ActionFunc : Type 0 → Type 0 → Type 0
ActionFunc W D = Context → Option D → W → (Option D × Option Error) × W

abbrev pub CompensateFunc : Type 0 → Type 0 → Type 0
CompensateFunc W D = Context → Option D → W → Option Error × W

pub record StepDefinition (W D : Type 0) : Type 0 where
  pub name : String
  pub action : Option (ActionFunc W D)
  pub compensate : Option (CompensateFunc W D)
  pub retry_policy : Option (RetryPolicy W)
  pub timeout : ℤ

-- `step_set` is the set of the names added so far.
pub record Definition (W D : Type 0) : Type 0 where
  pub name : String
  pub steps : List (StepDefinition W D)
  pub step_set : List String
  pub frozen : Bool
  pub store : Store W D
  pub retry_policy : RetryPolicy W
  pub timeout : ℤ
  pub lock_ttl : ℤ
  pub publisher : Option (EventPublisher W)
  pub logger : Option (Logger W)
  pub metrics : Option (Metrics W)
  pub tracer : Option (Tracer W)

-- The panics of the builders.
pub data BuildPanic : Type 0 where
  empty_saga_name : BuildPanic
  frozen_saga empty_step_name duplicate_step nil_action nil_argument : String → BuildPanic

pub data Built (A : Type 0) : Type 0 where
  built : A → Built A
  panicked : BuildPanic → Built A

-- The rest of a chain of builders.
abbrev pub and_then : {A B : Type 0} → Built A → (A → Built B) → Built B
and_then (built a) f = f a
and_then (panicked p) f = panicked p

-- `unicode.IsSpace`.
is_space : ℕ → Bool
is_space c =
    leb 9 c && leb c 13
    || c == 32
    || c == 133
    || c == 160
    || c == 5760
    || leb 8192 c && leb c 8202
    || c == 8232
    || c == 8233
    || c == 8239
    || c == 8287
    || c == 12288

-- `strings.TrimSpace(s) == ""`.
unfoldable pub is_blank : String → Bool
unfolding is_space
is_blank String.[] = true
is_blank (String.◌∷◌ c s) = is_space (code c) && is_blank s

-- `for _, opt := range opts { opt(d) }`.
abbrev pub apply_options : {A : Type 0} → List (A → A) → A → A
apply_options [] a = a
apply_options (opt ∷ opts) a = apply_options opts (opt a)

module _ {W D : Type 0} where
  -- `WithStepRetryPolicy` and `WithStepTimeout`, after the check for nil.
  abbrev pub with_step_retry_policy : RetryPolicy W → StepDefinition W D → StepDefinition W D
  with_step_retry_policy policy s = record s { retry_policy = some policy }

  abbrev pub with_step_timeout : ℤ → StepDefinition W D → StepDefinition W D
  with_step_timeout timeout s = record s { timeout = timeout }

  -- `Step`.
  abbrev pub step :
      String
      → Option (ActionFunc W D)
      → Option (CompensateFunc W D)
      → List (StepDefinition W D → StepDefinition W D)
      → StepDefinition W D
  step name action compensate opts = apply_options opts (record {
    name = name;
    action = action;
    compensate = compensate;
    retry_policy = none;
    timeout = pos 0;
  })

  -- The options of options.go, after their checks for nil.
  abbrev pub with_store : Store W D → Definition W D → Definition W D
  with_store store d = record d { store = store }

  abbrev pub with_retry_policy : RetryPolicy W → Definition W D → Definition W D
  with_retry_policy policy d = record d { retry_policy = policy }

  abbrev pub with_timeout : ℤ → Definition W D → Definition W D
  with_timeout timeout d = record d { timeout = timeout }

  abbrev pub with_lock_ttl : ℤ → Definition W D → Definition W D
  with_lock_ttl ttl d = record d { lock_ttl = ttl }

  abbrev pub with_event_publisher : EventPublisher W → Definition W D → Definition W D
  with_event_publisher publisher d = record d { publisher = some publisher }

  abbrev pub with_logger : Logger W → Definition W D → Definition W D
  with_logger logger d = record d { logger = some logger }

  abbrev pub with_metrics : Metrics W → Definition W D → Definition W D
  with_metrics metrics d = record d { metrics = some metrics }

  abbrev pub with_tracer : Tracer W → Definition W D → Definition W D
  with_tracer tracer d = record d { tracer = some tracer }

  -- `New`.
  unfoldable pub new : String → List (Definition W D → Definition W D) → Built (Definition W D)
  unfolding is_blank
  new name opts =
      if is_blank name
      then panicked empty_saga_name
      else built (
          apply_options opts (record {
            name = name;
            steps = [];
            step_set = [];
            frozen = false;
            store = noop_store;
            retry_policy = no_retry;
            timeout = pos 0;
            lock_ttl = default_lock_ttl;
            publisher = none;
            logger = none;
            metrics = none;
            tracer = none;
          }))

  -- `AddStep`. The set is asked for the name as it is given, not trimmed.
  unfoldable pub add_step : StepDefinition W D → Definition W D → Built (Definition W D)
  add_step s d =
      if d.frozen
      then panicked (frozen_saga s.name)
      else if is_blank s.name
      then panicked (empty_step_name s.name)
      else if any (str_eq s.name) d.step_set
      then panicked (duplicate_step s.name)
      else if not (is_some s.action)
      then panicked (nil_action s.name)
      else built (record d { step_set = s.name ∷ d.step_set; steps = d.steps ++ (s ∷ []) })

  -- A chain of `AddStep` calls.
  abbrev pub add_steps : List (StepDefinition W D) → Definition W D → Built (Definition W D)
  add_steps [] d = built d
  add_steps (s ∷ rest) d = and_then (add_step s d) (add_steps rest)

  -- `Freeze`.
  unfoldable pub freeze : Definition W D → Definition W D
  freeze d = record d { frozen = true }
