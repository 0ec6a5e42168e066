-- ===== src/Retry/Backoff.antt =====
-- The delays of exponential backoff: never above the cap, and doubling up to it.
use native.Mathlib.Nat.{pow-suc}
use go_orchestrator.Prelude.{
  ℕ, zero, suc, ◌+◌, ◌-◌, ◌*◌, ◌^◌, ◌≤◌, ◌<◌, ◌≡◌, ap, min, Bool-cases, inl, inr, arith,
}
use go_orchestrator.Prelude.Int.{ℤ, pos, pos_part, ◌≤ℤ◌, ◌<ℤ◌, leb_ℤ, double64}
use go_orchestrator.Retry.{backoff_loop, backoff_delay}

loop-le : (rounds : ℕ) (max_delay delay : ℤ) → backoff_loop rounds max_delay delay ≤ℤ max_delay
unfolding backoff_loop
loop-le zero max_delay delay = ground arith
loop-le (suc rounds) max_delay delay = ground (arith, loop-le rounds max_delay (double64 delay))

-- Whatever the base, the cap and the attempt, and however the doubling wraps, a delay never passes
-- the cap.
pub backoff_delay-le :
    (base max_delay attempt : ℤ) → backoff_delay base max_delay attempt ≤ℤ max_delay
unfolding backoff_delay
backoff_delay-le base max_delay attempt = loop-le (pos_part attempt - 2) max_delay base

pow_pos : (n : ℕ) → 1 ≤ 2 ^ n
pow_pos zero = omega arith
pow_pos (suc n) = rw pow-suc (omega (arith, pow_pos n))

double64_small : (n : ℕ) → n < 4611686018427387904 → double64 (pos n) ≡ pos (n * 2)
unfolding double64
double64_small n h = ground arith

capped : (n d m : ℕ) → m ≤ d → m ≤ d * 2 ^ n
capped n d m h = grind (arith, pow_pos n)

loop-eq :
    (rounds max_delay delay : ℕ)
    → max_delay ≤ 4611686018427387904
    → backoff_loop rounds (pos max_delay) (pos delay) ≡ pos (min (delay * 2 ^ rounds) max_delay)
unfolding backoff_loop
loop-eq zero max_delay delay h = ground arith
loop-eq (suc rounds) max_delay delay h = elim (Bool-cases (leb_ℤ (pos max_delay) (pos delay))) [
  | inl stop ↦ rw stop (ap pos (omega (arith, capped (suc rounds) delay max_delay (ground arith))))
  | inr go ↦ rw go (
      rw (double64_small delay (ground arith))
        (rw (loop-eq rounds max_delay (delay * 2) h, pow-suc) (ap pos (omega arith))))
]

-- With a base of zero or more and a cap of at most 2 ^ 62 nanoseconds (146 years), the delay before
-- attempt `n + 2` is the base doubled `n` times, or the cap if that is less.
pub backoff_delay_lem :
    (base max_delay n : ℕ)
    → max_delay ≤ 4611686018427387904
    → backoff_delay (pos base) (pos max_delay) (pos (n + 2)) ≡ pos (min (base * 2 ^ n) max_delay)
unfolding backoff_delay
backoff_delay_lem base max_delay n h =
    let e : n + 2 - 2 ≡ n = omega arith in rw e (loop-eq n max_delay base h)

-- Without the bound on the cap the doubling can wrap: from a base of 2 ^ 62 or more with a larger
-- cap, the delay before the third attempt is negative, and so no wait at all.
pub backoff_wraps :
    (base max_delay : ℕ)
    → 4611686018427387904 ≤ base
    → base < max_delay
    → max_delay < 9223372036854775808
    → backoff_delay (pos base) (pos max_delay) (pos 3) <ℤ pos 0
unfolding backoff_delay backoff_loop double64
backoff_wraps base max_delay h k l = ground arith
