-- ===== src/Engine/Safety/Stops.antt =====
-- Where a forward run of execute.go stops or goes on, and what the loops of resumeRunning find.
use go_orchestrator.Prelude.{
  ℕ, zero, suc, ◌+◌, ◌<◌, ◌≡◌, refl, ◌⊎◌, inl, inr, Bool, true, false, Option, none, some, List, [],
  ◌∷◌, arith, length, take, Bool-cases,
}
use go_orchestrator.Status.{StepStatus}
use go_orchestrator.Execution.{StepExecution}
use go_orchestrator.Engine.Compensate.{has_status, any_succeeded}
use go_orchestrator.Engine.Running.{find_failed, find_start}
use go_orchestrator.Engine.Shapes.{statuses, Untouched, Forward, Backward, Barren, Front, Middle}

-- A run that has gone forward can go backward.
pub Forward-Backward : (l : List StepStatus) → Forward l → Backward l
Forward-Backward [] f = tt
Forward-Backward (StepStatus.succeeded ∷ l) f = Forward-Backward l f
Forward-Backward (StepStatus.running ∷ l) f = f
Forward-Backward (StepStatus.failed ∷ l) f = f
Forward-Backward (StepStatus.pending ∷ l) f = f
Forward-Backward (StepStatus.compensating ∷ l) f = absurd f
Forward-Backward (StepStatus.compensated ∷ l) f = absurd f
Forward-Backward (StepStatus.compensation_failed ∷ l) f = absurd f

-- Where the run stopped: at the step with this index, all those before it having succeeded.
abbrev pub Stopped : ℕ → List StepStatus → Type 0
Stopped i [] = ⊥
Stopped zero (StepStatus.running ∷ l) = Untouched l
Stopped zero (StepStatus.failed ∷ l) = Untouched l
Stopped zero (StepStatus.pending ∷ l) = Untouched l
Stopped zero (_ ∷ l) = ⊥
Stopped (suc i) (s ∷ l) = (s ≡ StepStatus.succeeded) × Stopped i l

pub Stopped-Forward : (i : ℕ) (l : List StepStatus) → Stopped i l → Forward l
Stopped-Forward i [] h = tt
Stopped-Forward zero (s ∷ l) h = ground arith
Stopped-Forward (suc i) (s ∷ l) h = rw h.0 (Stopped-Forward i l h.1)

pub Stopped-lt : (i : ℕ) (l : List StepStatus) → Stopped i l → i < length l
Stopped-lt i [] h = absurd h
Stopped-lt zero (s ∷ l) h = omega arith
Stopped-lt (suc i) (s ∷ l) h = omega (arith, Stopped-lt i l h.1)

-- With nothing succeeded before it, the step that stopped is the first.
pub Stopped-Barren :
    {D : Type 0} (i : ℕ) (l : List (StepExecution D))
    → Stopped i (statuses l)
    → any_succeeded (take i l) ≡ false
    → Barren (statuses l)
Stopped-Barren i [] h b = absurd h
Stopped-Barren zero (s ∷ l) h b = barren s.status h
  where
    barren : (st : StepStatus) → Stopped zero (st ∷ statuses l) → Barren (st ∷ statuses l)
    barren st h = ground arith
Stopped-Barren (suc i) (s ∷ l) h b = absurd (ground arith)

-- Where a forward run goes on: before a step that is untouched, or at one that was interrupted.
abbrev pub Ready : ℕ → List StepStatus → Type 0
Ready i l = Front i l ⊎ Middle i StepStatus.running l

-- The statuses of a step at which a run can stop.
abbrev pub is_stop : StepStatus → Bool
is_stop StepStatus.pending = true
is_stop StepStatus.running = true
is_stop StepStatus.failed = true
is_stop _ = false

pub Middle-Stopped :
    (i : ℕ) (st : StepStatus) (l : List StepStatus)
    → is_stop st ≡ true
    → Middle i st l
    → Stopped i l
Middle-Stopped i st [] h m = absurd m
Middle-Stopped zero st (s ∷ l) h m = rw m.0 (stop st h m.1)
  where
    stop : (st : StepStatus) → is_stop st ≡ true → Untouched l → Stopped zero (st ∷ l)
    stop st h u = ground arith
Middle-Stopped (suc i) st (s ∷ l) h m = (m.0, Middle-Stopped i st l h m.1)

Untouched-find_failed :
    {D : Type 0} (k : ℕ) (l : List (StepExecution D))
    → Untouched (statuses l)
    → find_failed k l ≡ none
Untouched-find_failed k [] u = refl
Untouched-find_failed k (s ∷ l) u = ground (arith, Untouched-find_failed (suc k) l u.1)

-- The first loop of `resumeRunning` finds the step that stopped the run.
pub find_failed-Stopped :
    {D : Type 0} (k : ℕ) (l : List (StepExecution D)) (i : ℕ) (x : StepExecution D)
    → Forward (statuses l)
    → find_failed k l ≡ some (i, x)
    → (j : ℕ) × (i ≡ k + j) × Stopped j (statuses l)
find_failed-Stopped k [] i x f h = cc
find_failed-Stopped k (s ∷ l) i x f h = elim (Bool-cases (has_status StepStatus.succeeded s)) [
  | inl hit ↦
      let (j, e, stop) = find_failed-Stopped (suc k) l i x (ground arith) (ground arith) in
      (suc j, omega arith, (ground arith, stop))
  | inr miss ↦ (
    0,
    ground (arith, Untouched-find_failed (suc k) l),
    ground (arith, Untouched-find_failed (suc k) l),
  )
]

Ready-after :
    (j : ℕ) (l : List StepStatus) (st : StepStatus)
    → st ≡ StepStatus.succeeded
    → Ready j l
    → Ready (suc j) (st ∷ l)
Ready-after j l st e (inl f) = inl (e, f)
Ready-after j l st e (inr m) = inr (e, m)

-- With no failed step the second loop finds where to go on.
pub find_start-Ready :
    {D : Type 0} (k : ℕ) (x : Option D) (l : List (StepExecution D))
    → Forward (statuses l)
    → find_failed k l ≡ none
    → (j : ℕ) × ((find_start k x l).0 ≡ k + j) × Ready j (statuses l)
find_start-Ready k x [] f h = (0, omega arith, inl tt)
find_start-Ready k x (s ∷ l) f h = elim (Bool-cases (has_status StepStatus.succeeded s)) [
  | inl hit ↦
      let (j, e, ready) = find_start-Ready (suc k) s.output l (ground arith) (ground arith) in
      (suc j, ground (arith, e), Ready-after j (statuses l) s.status (ground arith) ready)
  | inr miss ↦ (0, ground arith, ground arith)
]
