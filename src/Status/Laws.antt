-- ===== src/Status/Laws.antt =====
-- The two state machines of transitions.go: terminal statuses have no way out, every other status
-- has one, and no status is ever entered twice.
use go_orchestrator.Prelude.{ℕ, suc, ◌+◌, ◌≤◌, ◌<◌, ◌≡◌, refl, ◌↔◌, true, false, arith}
use go_orchestrator.Status.{
  Status, StepStatus, is_terminal, step_is_terminal, can_transition_status,
  can_transition_step_status,
}

-- A path through the table of an execution's statuses.
pub data StatusPath : Status → ℕ → Status → Type 0 where
  here : (s : Status) → StatusPath s 0 s
  step :
      (s t u : Status) (n : ℕ)
      → can_transition_status s t ≡ true
      → StatusPath t n u
      → StatusPath s (suc n) u

pub data StepStatusPath : StepStatus → ℕ → StepStatus → Type 0 where
  here : (s : StepStatus) → StepStatusPath s 0 s
  step :
      (s t u : StepStatus) (n : ℕ)
      → can_transition_step_status s t ≡ true
      → StepStatusPath t n u
      → StepStatusPath s (suc n) u

-- How many transitions are possible at most from a status.
abbrev rank : Status → ℕ
rank Status.pending = 3
rank Status.running = 2
rank Status.compensating = 1
rank _ = 0

abbrev step_rank : StepStatus → ℕ
step_rank StepStatus.pending = 4
step_rank StepStatus.running = 3
step_rank StepStatus.succeeded = 2
step_rank StepStatus.compensating = 1
step_rank _ = 0

rank_falls : (s t : Status) → can_transition_status s t ≡ true → rank t < rank s
unfolding can_transition_status
rank_falls s t h = ground arith

step_rank_falls :
    (s t : StepStatus) → can_transition_step_status s t ≡ true → step_rank t < step_rank s
unfolding can_transition_step_status
step_rank_falls s t h = ground arith

path-le-rank : {s u : Status} {n : ℕ} → StatusPath s n u → n + rank u ≤ rank s
path-le-rank (here s) = omega arith
path-le-rank (step s t u n h p) = omega (arith, rank_falls s t h, path-le-rank p)

step_path-le-rank :
    {s u : StepStatus} {n : ℕ} → StepStatusPath s n u → n + step_rank u ≤ step_rank s
step_path-le-rank (here s) = omega arith
step_path-le-rank (step s t u n h p) = omega (arith, step_rank_falls s t h, step_path-le-rank p)

rank-le : (s : Status) → rank s ≤ 3
rank-le s = ground arith

step_rank-le : (s : StepStatus) → step_rank s ≤ 4
step_rank-le s = ground arith

-- Any sequence of allowed transitions of an execution's status has at most three of them, and any
-- of a step's status at most four; so no status is entered twice.
pub transitions_bounded :
    ((s u : Status) (n : ℕ) → StatusPath s n u → n ≤ 3)
    × ((s u : StepStatus) (n : ℕ) → StepStatusPath s n u → n ≤ 4)
transitions_bounded = (
  λ s u n p. omega (arith, path-le-rank p, rank-le s),
  λ s u n p. omega (arith, step_path-le-rank p, step_rank-le s),
)

-- A status of an execution is terminal exactly when no transition leaves it, and so is a status of a
-- step.
pub is_terminal_iff :
    ((s : Status) → (is_terminal s ≡ true) ↔ ((t : Status) → can_transition_status s t ≡ false))
    × ((s : StepStatus)
        → (step_is_terminal s ≡ true) ↔ ((t : StepStatus) → can_transition_step_status s t ≡ false))
unfolding can_transition_status can_transition_step_status
is_terminal_iff = (λ s. (λ h t. ground arith, stuck s), λ s. (λ h t. ground arith, step_stuck s))
  where
    stuck : (s : Status) → ((t : Status) → can_transition_status s t ≡ false) → is_terminal s ≡ true
    stuck Status.pending h = cc (h Status.running)
    stuck Status.running h = cc (h Status.completed)
    stuck Status.compensating h = cc (h Status.compensated)
    stuck _ h = refl

    step_stuck :
        (s : StepStatus)
        → ((t : StepStatus) → can_transition_step_status s t ≡ false)
        → step_is_terminal s ≡ true
    step_stuck StepStatus.pending h = cc (h StepStatus.running)
    step_stuck StepStatus.running h = cc (h StepStatus.succeeded)
    step_stuck StepStatus.succeeded h = cc (h StepStatus.compensating)
    step_stuck StepStatus.compensating h = cc (h StepStatus.compensated)
    step_stuck _ h = refl
