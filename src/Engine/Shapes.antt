-- ===== src/Engine/Shapes.antt =====
-- The shapes of an execution that the engine of execute.go saves: its status with the statuses of its
-- steps, in the order of the definition.
use go_orchestrator.Prelude.{
  ℕ, zero, suc, ◌≤◌, ◌<◌, ◌≡◌, refl, ap, Bool, true, false, some, List, [], ◌∷◌, arith, length,
  get_elem?, set,
}
use go_orchestrator.Status.{Status, StepStatus}
use go_orchestrator.Execution.{StepExecution, Execution}
use go_orchestrator.Engine.Compensate.{ran}

-- No step has been touched.
abbrev pub Untouched : List StepStatus → Type 0
Untouched [] = Unit
Untouched (s ∷ l) = (s ≡ StepStatus.pending) × Untouched l

abbrev pub AllSucceeded : List StepStatus → Type 0
AllSucceeded [] = Unit
AllSucceeded (s ∷ l) = (s ≡ StepStatus.succeeded) × AllSucceeded l

-- Some steps have succeeded, the next may be under way or have failed, the rest are untouched.
abbrev pub Forward : List StepStatus → Type 0
Forward [] = Unit
Forward (StepStatus.succeeded ∷ l) = Forward l
Forward (StepStatus.running ∷ l) = Untouched l
Forward (StepStatus.failed ∷ l) = Untouched l
Forward (StepStatus.pending ∷ l) = Untouched l
Forward (_ ∷ l) = ⊥

-- The same, where steps that have succeeded may have been compensated since.
abbrev pub Backward : List StepStatus → Type 0
Backward [] = Unit
Backward (StepStatus.succeeded ∷ l) = Backward l
Backward (StepStatus.compensating ∷ l) = Backward l
Backward (StepStatus.compensated ∷ l) = Backward l
Backward (StepStatus.compensation_failed ∷ l) = Backward l
Backward (_ ∷ l) = Untouched l

-- Nothing has succeeded.
abbrev pub Barren : List StepStatus → Type 0
Barren [] = Unit
Barren (StepStatus.running ∷ l) = Untouched l
Barren (StepStatus.failed ∷ l) = Untouched l
Barren (StepStatus.pending ∷ l) = Untouched l
Barren (_ ∷ l) = ⊥

-- What the status of an execution says of its steps.
abbrev pub Fits : Status → List StepStatus → Type 0
Fits Status.pending l = Untouched l
Fits Status.running l = Forward l
Fits Status.completed l = AllSucceeded l
Fits Status.compensating l = Backward l
Fits Status.compensated l = Backward l
Fits Status.compensation_failed l = Backward l
Fits Status.failed l = Barren l

abbrev pub Shape : Type 0
Shape = Status × List StepStatus

-- A shape that the engine can be in, for a definition of `n` steps.
pub record IsSound (n : ℕ) (v : Shape) : Type 0 where
  pub sized : length v.1 ≡ n
  pub fits : Fits v.0 v.1

module _ {D : Type 0} where
  abbrev pub statuses : List (StepExecution D) → List StepStatus
  statuses [] = []
  statuses (s ∷ l) = s.status ∷ statuses l

  abbrev pub shape : Execution D → Shape
  shape e = (e.status, statuses e.steps)

  pub statuses-set :
      (l : List (StepExecution D)) (i : ℕ) (s : StepExecution D)
      → statuses (set l i s) ≡ set (statuses l) i s.status
  statuses-set [] i s = refl
  statuses-set (x ∷ l) zero s = refl
  statuses-set (x ∷ l) (suc i) s = ap (◌∷◌ x.status) (statuses-set l i s)

  pub length-statuses : (l : List (StepExecution D)) → length (statuses l) ≡ length l
  length-statuses [] = refl
  length-statuses (s ∷ l) = ap suc (length-statuses l)

  pub get_elem?-statuses :
      (l : List (StepExecution D)) (i : ℕ) (s : StepStatus)
      → get_elem? (statuses l) i ≡ some s
      → (x : StepExecution D) × (get_elem? l i ≡ some x) × (x.status ≡ s)
  get_elem?-statuses [] i s h = cc
  get_elem?-statuses (x ∷ l) zero s h = (x, refl, ground arith)
  get_elem?-statuses (x ∷ l) (suc i) s h = get_elem?-statuses l i s h

-- The first `i` steps have succeeded, and the rest are untouched.
abbrev pub Front : ℕ → List StepStatus → Type 0
Front zero l = Untouched l
Front (suc i) [] = ⊥
Front (suc i) (s ∷ l) = (s ≡ StepStatus.succeeded) × Front i l

-- The first `i` steps have succeeded, the next has a given status, and the rest are untouched.
abbrev pub Middle : ℕ → StepStatus → List StepStatus → Type 0
Middle i st [] = ⊥
Middle zero st (s ∷ l) = (s ≡ st) × Untouched l
Middle (suc i) st (s ∷ l) = (s ≡ StepStatus.succeeded) × Middle i st l

pub Front-Middle :
    (i : ℕ) (l : List StepStatus) → Front i l → i < length l → Middle i StepStatus.pending l
Front-Middle i [] f h = elim h [ ]
Front-Middle zero (s ∷ l) f h = f
Front-Middle (suc i) (s ∷ l) f h = (f.0, Front-Middle i l f.1 (omega arith))

pub Middle-get :
    (i : ℕ) (st : StepStatus) (l : List StepStatus) → Middle i st l → get_elem? l i ≡ some st
Middle-get i st [] m = absurd m
Middle-get zero st (s ∷ l) m = ap some m.0
Middle-get (suc i) st (s ∷ l) m = Middle-get i st l m.1

pub Middle-lt : (i : ℕ) (st : StepStatus) (l : List StepStatus) → Middle i st l → i < length l
Middle-lt i st [] m = absurd m
Middle-lt zero st (s ∷ l) m = omega arith
Middle-lt (suc i) st (s ∷ l) m = omega (arith, Middle-lt i st l m.1)

pub Middle-set :
    (i : ℕ) (st to : StepStatus) (l : List StepStatus) → Middle i st l → Middle i to (set l i to)
Middle-set i st to [] m = absurd m
Middle-set zero st to (s ∷ l) m = (refl, m.1)
Middle-set (suc i) st to (s ∷ l) m = (m.0, Middle-set i st to l m.1)

pub Middle-succeeded :
    (i : ℕ) (l : List StepStatus) → Middle i StepStatus.succeeded l → Front (suc i) l
Middle-succeeded i [] m = absurd m
Middle-succeeded zero (s ∷ l) m = m
Middle-succeeded (suc i) (s ∷ l) m = (m.0, Middle-succeeded i l m.1)

Front-Forward : (i : ℕ) (l : List StepStatus) → Front i l → Forward l
Front-Forward zero [] f = tt
Front-Forward zero (s ∷ l) f = rw f.0 f.1
Front-Forward (suc i) [] f = absurd f
Front-Forward (suc i) (s ∷ l) f = rw f.0 (Front-Forward i l f.1)

-- A step in the middle has one of these statuses.
abbrev pub is_edge : StepStatus → Bool
is_edge StepStatus.pending = true
is_edge StepStatus.running = true
is_edge StepStatus.failed = true
is_edge StepStatus.succeeded = true
is_edge _ = false

pub Middle-Forward :
    (i : ℕ) (st : StepStatus) (l : List StepStatus) → is_edge st ≡ true → Middle i st l → Forward l
Middle-Forward i st [] h m = absurd m
Middle-Forward zero st (s ∷ l) h m = rw m.0 (edge st h l m.1)
  where
    edge :
        (st : StepStatus)
        → is_edge st ≡ true
        → (l : List StepStatus) → Untouched l
        → Forward (st ∷ l)
    edge StepStatus.pending h l u = u
    edge StepStatus.running h l u = u
    edge StepStatus.failed h l u = u
    edge StepStatus.succeeded h l u = Front-Forward zero l u
    edge StepStatus.compensating h l u = cc
    edge StepStatus.compensated h l u = cc
    edge StepStatus.compensation_failed h l u = cc
Middle-Forward (suc i) st (s ∷ l) h m = rw m.0 (Middle-Forward i st l h m.1)

pub Front-le : (i : ℕ) (l : List StepStatus) → Front i l → i ≤ length l
Front-le zero l f = omega arith
Front-le (suc i) [] f = absurd f
Front-le (suc i) (s ∷ l) f = omega (arith, Front-le i l f.1)

pub Front-AllSucceeded : (i : ℕ) (l : List StepStatus) → Front i l → length l ≤ i → AllSucceeded l
Front-AllSucceeded i [] f h = tt
Front-AllSucceeded zero (s ∷ l) f h = elim h [ ]
Front-AllSucceeded (suc i) (s ∷ l) f h = (f.0, Front-AllSucceeded i l f.1 (omega arith))

Untouched-get :
    (i : ℕ) (s : StepStatus) (l : List StepStatus)
    → get_elem? l i ≡ some s
    → Untouched l
    → s ≡ StepStatus.pending
Untouched-get i s [] h u = cc
Untouched-get zero s (x ∷ l) h u = ground arith
Untouched-get (suc i) s (x ∷ l) h u = Untouched-get i s l h u.1

Untouched-not-ran :
    (i : ℕ) (s : StepStatus) (l : List StepStatus)
    → get_elem? l i ≡ some s
    → ran s ≡ true
    → Untouched l
    → ⊥
Untouched-not-ran i s l h r u = ground (arith, Untouched-get i s l h u)

-- Statuses of a step that has run, in the sense of `resumeCompensating`.
pub Backward-set :
    (i : ℕ) (from to : StepStatus) (l : List StepStatus)
    → get_elem? l i ≡ some from
    → ran from ≡ true
    → ran to ≡ true
    → Backward l
    → Backward (set l i to)
Backward-set i from to [] g p q b = tt
Backward-set zero from to (s ∷ l) g p q b = step s to (ground arith) q l b
  where
    step :
        (s to : StepStatus)
        → ran s ≡ true
        → ran to ≡ true
        → (l : List StepStatus) → Backward (s ∷ l)
        → Backward (to ∷ l)
    step s to p q l b = ground arith
Backward-set (suc i) from to (s ∷ l) g p q b = later s (Backward-set i from to l g p q) b
  where
    not_ran : Untouched l → Untouched (set l i to)
    not_ran u = absurd (Untouched-not-ran i from l g p u)

    later :
        (s : StepStatus)
        → (Backward l → Backward (set l i to))
        → Backward (s ∷ l)
        → Backward (s ∷ set l i to)
    later StepStatus.succeeded h b = h b
    later StepStatus.compensating h b = h b
    later StepStatus.compensated h b = h b
    later StepStatus.compensation_failed h b = h b
    later StepStatus.pending h b = not_ran b
    later StepStatus.running h b = not_ran b
    later StepStatus.failed h b = not_ran b
