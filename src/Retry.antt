-- ===== src/Retry.antt =====
-- retry.go: the built-in retry policies. A `time.Duration` is an `int64`, and doubling it wraps. The
-- jitter of `WithJitter` draws a float, so its arithmetic is a parameter.
pub mod Backoff
use go_orchestrator.Prelude.{
  ℕ, zero, suc, ◌-◌, String, Bool, true, false, Option, none, some, if◌then◌else◌,
}
use go_orchestrator.Prelude.Int.{ℤ, pos, pos_part, ltb_ℤ, leb_ℤ, double64}
use go_orchestrator.Interfaces.{RetryPolicy}

-- The loop of `exponentialBackoffPolicy.Delay`, with the number of rounds left; the loop's test on
-- the delay is an early return.
unfoldable pub backoff_loop : ℕ → ℤ → ℤ → ℤ
backoff_loop zero max_delay delay = if ltb_ℤ max_delay delay then max_delay else delay
backoff_loop (suc rounds) max_delay delay =
    let rest = backoff_loop rounds max_delay (double64 delay) in
    if leb_ℤ max_delay delay then max_delay else rest

-- `for i := 2; i < attempt; i++` makes attempt - 2 rounds, or none.
unfoldable pub backoff_delay : ℤ → ℤ → ℤ → ℤ
unfolding backoff_loop
backoff_delay base max_delay attempt = backoff_loop (pos_part attempt - 2) max_delay base

-- `if maxAttempts < 1 { maxAttempts = 1 }`.
abbrev pub at_least_one : ℤ → ℤ
at_least_one n = if ltb_ℤ n (pos 1) then pos 1 else n

module _ {W : Type 0} where
  unfoldable pub no_retry : RetryPolicy W
  no_retry = record { max_attempts = pos 1; delay = λ attempt w. (pos 0, w) }

  unfoldable pub fixed_delay : ℤ → ℤ → RetryPolicy W
  fixed_delay delay max_attempts = record {
    max_attempts = at_least_one max_attempts;
    delay = λ attempt w. (delay, w);
  }

  unfoldable pub exponential_backoff : ℤ → ℤ → ℤ → RetryPolicy W
  exponential_backoff base max_delay max_attempts = record {
    max_attempts = at_least_one max_attempts;
    delay = λ attempt w. (backoff_delay base max_delay attempt, w);
  }

  -- `jitterPolicy`: `spread` is the float arithmetic of its `Delay`, with the draw from the world.
  unfoldable pub with_jitter : RetryPolicy W → (ℤ → W → ℤ × W) → RetryPolicy W
  with_jitter policy spread = record {
    max_attempts = policy.max_attempts;
    delay = λ attempt w.
        let (base, w') = policy.delay attempt w in
        if leb_ℤ base (pos 0) then (base, w') else spread base w';
  }
