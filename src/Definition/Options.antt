-- ===== src/Definition/Options.antt =====
-- options.go and definition.go: the options with their checks for nil, and a saga put together in one
-- chain of New and AddStep. Go evaluates the arguments of New first, from left to right.
use go_orchestrator.Prelude.{String, Option, none, some, List, [], ◌∷◌}
use go_orchestrator.Prelude.Int.{ℤ}
use go_orchestrator.Interfaces.{Store, EventPublisher, Logger, Metrics, Tracer, RetryPolicy}
use go_orchestrator.Definition.{
  StepDefinition, Definition, nil_argument, Built, built, panicked, and_then, with_store,
  with_retry_policy, with_timeout, with_lock_ttl, with_event_publisher, with_logger, with_metrics,
  with_tracer, new, add_steps,
}

-- A call of one of the options with its argument, none for nil.
pub data OptionCall (W D : Type 0) : Type 0 where
  of_store : Option (Store W D) → OptionCall W D
  of_retry_policy : Option (RetryPolicy W) → OptionCall W D
  of_timeout of_lock_ttl : ℤ → OptionCall W D
  of_event_publisher : Option (EventPublisher W) → OptionCall W D
  of_logger : Option (Logger W) → OptionCall W D
  of_metrics : Option (Metrics W) → OptionCall W D
  of_tracer : Option (Tracer W) → OptionCall W D

-- `if store == nil { panic(...) }` and the like.
abbrev pub not_nil : {A B : Type 0} → String → Option A → (A → B) → Built B
not_nil what none f = panicked (nil_argument what)
not_nil what (some x) f = built (f x)

module _ {W D : Type 0} where
  abbrev pub option_of : OptionCall W D → Built (Definition W D → Definition W D)
  option_of (of_store store) = not_nil "store" store with_store
  option_of (of_retry_policy policy) = not_nil "retry policy" policy with_retry_policy
  option_of (of_timeout timeout) = built (with_timeout timeout)
  option_of (of_lock_ttl ttl) = built (with_lock_ttl ttl)
  option_of (of_event_publisher publisher) =
      not_nil "event publisher" publisher with_event_publisher
  option_of (of_logger logger) = not_nil "logger" logger with_logger
  option_of (of_metrics metrics) = not_nil "metrics" metrics with_metrics
  option_of (of_tracer tracer) = not_nil "tracer" tracer with_tracer

  -- The arguments of `New`.
  abbrev pub options_of : List (OptionCall W D) → Built (List (Definition W D → Definition W D))
  options_of [] = built []
  options_of (call ∷ calls) =
      and_then (option_of call) (λ opt. and_then (options_of calls) (λ opts. built (opt ∷ opts)))

  -- `New` followed by a chain of `AddStep`.
  abbrev pub build :
      String → List (OptionCall W D) → List (StepDefinition W D) → Built (Definition W D)
  build name calls steps =
      and_then (options_of calls) (λ opts. and_then (new name opts) (add_steps steps))
