-- ===== src/Engine/Rollback/Verdict.antt =====
-- What the results of compensate of execute.go say of the steps.
use go_orchestrator.Prelude.{
  some_inj, ℕ, zero, suc, ◌≤◌, ◌<◌, ◌≡◌, ◌≢◌, refl, sym, ap, ◌∙◌, inl, inr, Bool, true, false, not,
  ◌||◌, Option, none, some, List, [], ◌∷◌, arith, length, get_elem?, any, take, Bool-cases,
}
use go_orchestrator.Status.{StepStatus}
use go_orchestrator.Errors.{Error}
use go_orchestrator.Context.{Context}
use go_orchestrator.Execution.{StepExecution}
use go_orchestrator.Engine.Monad.{Run, State, pure, get_exec, ◌>>=◌}
use go_orchestrator.Engine.Compensate.{has_status, compensate_loop, compensate, verdict}
use go_orchestrator.Engine.Logic.{Ensures, after-Ensures}
use go_orchestrator.Engine.Rollback.Loop.{Above, Below, compensate_loop_lem}

-- `y` stands at index `i` of the first `k` elements, and `p` is true of it.
abbrev pub IsAmong : {A : Type 0} → (A → Bool) → ℕ → List A → ℕ → A → Type 0
IsAmong p k l i y = i < k × (get_elem? l i ≡ some y) × (p y ≡ true)

any-take :
    {A : Type 0} (p : A → Bool) (k : ℕ) (l : List A) (i : ℕ) (y : A)
    → IsAmong p k l i y
    → any p (take k l) ≡ true
any-take p zero l i y h = absurd (omega (arith, h.0))
any-take p (suc k) [] i y h = cc
any-take p (suc k) (x ∷ l) zero y h = ap (λ b. b || any p (take k l)) (ap p (some_inj h.1) ∙ h.2)
any-take p (suc k) (x ∷ l) (suc i) y h = elim (Bool-cases (p x)) [
  | inl q ↦ rw q refl
  | inr q ↦ rw q (any-take p k l i y (omega (arith, h.0), h.1, h.2))
]

found_take :
    {A : Type 0} (p : A → Bool) (k : ℕ) (l : List A)
    → any p (take k l) ≡ true
    → (i : ℕ) × (y : A) × IsAmong p k l i y
found_take p zero l h = cc
found_take p (suc k) [] h = cc
found_take p (suc k) (x ∷ l) h = elim (Bool-cases (p x)) [
  | inl q ↦ (0, x, (omega arith, refl, q))
  | inr q ↦
      let (i, y, (l', g, t)) = found_take p k l (ap (λ b. b || any p (take k l)) (sym q) ∙ h) in
      (suc i, y, (omega (arith, l'), g, t))
]

-- The step is marked as one whose compensation failed.
abbrev pub has_failed : {D : Type 0} → StepExecution D → Bool
has_failed y = has_status StepStatus.compensation_failed y

not-true : (b : Bool) → not b ≡ true → b ≢ true
not-true b h e = ground arith

not-false : (b : Bool) → not b ≡ false → b ≡ true
not-false b h = ground arith

module _ {W D : Type 0} where
  -- What the results of `compensate` say of the state `t` that it leaves, from a state `s`.
  abbrev pub Tells : Run W D → ℕ → State W D → Bool × Option Error → State W D → Type 0
  Tells rs failed_at s r t =
      Above failed_at s t
      × (r.1 ≡ none
          → Below rs failed_at s t
            × (r.0 ≡ true
                → (i : ℕ) (y : StepExecution D) → ¬ IsAmong has_failed failed_at t.exec.steps i y)
            × (r.0 ≡ false
                → (i : ℕ) × (y : StepExecution D) × IsAmong has_failed failed_at t.exec.steps i y))

  -- From a state whose execution has at least `failed_at` steps, as the definition has, `compensate`
  -- does not panic, and it leaves the steps from `failed_at` on as they were. If no store error breaks
  -- it off, the compensating action of each step before `failed_at` that has one and had succeeded, or
  -- was being compensated, has been called in this run of `compensate` with the step's output, and the
  -- step is compensated if that call gave no error, and marked as failed to be compensated, with the
  -- text of the error, if it gave one; each other step is as it was. If it reports that all went well,
  -- no step before `failed_at` is marked as failed to be compensated, and if it reports that not all
  -- did, one is.
  pub compensate_lem :
      (rs : Run W D) (ctx : Context) (failed_at : ℕ) (s : State W D)
      → failed_at ≤ length s.exec.steps
      → failed_at ≤ length rs.definition.steps
      → Ensures (Tells rs failed_at s) (compensate rs ctx failed_at s)
  unfolding compensate
  compensate_lem rs ctx failed_at s l m =
      after-Ensures (λ e t. Above failed_at s t × (e ≡ none → Below rs failed_at s t))
        (Tells rs failed_at s) (compensate_loop failed_at rs ctx s)
        (λ e. get_exec >>= λ exec. pure (verdict failed_at exec e))
        (compensate_loop_lem rs ctx failed_at s l m) go
    where
      go :
          (e : Option Error) (t : State W D)
          → Above failed_at s t × (e ≡ none → Below rs failed_at s t)
          → Ensures
              (Tells rs failed_at s)
              ((get_exec >>= λ exec. pure (verdict failed_at exec e)) t)
      go (some e) t h = (h.0, λ n. cc)
      go none t h = (
        h.0,
        λ n. (
          h.1 refl,
          (λ p i y a. not-true _ p (any-take has_failed failed_at t.exec.steps i y a)),
          λ p. found_take has_failed failed_at t.exec.steps (not-false _ p),
        ),
      )
