-- ===== src/Status/Texts.antt =====
-- Which texts status.go and step_status.go recognize.
use go_orchestrator.Prelude.{
  String, ◌≡◌, refl, sym, subst, map, ◌↔◌, ◌⊎◌, inl, inr, Bool, true, false, ◌||◌, List, [], ◌∷◌,
  any, str_eq, str_eq→eq,
}
use go_orchestrator.Status.{Status, StepStatus, status_text, step_status_text, valid, valid_step}

or_cases : (a b : Bool) → (a || b) ≡ true → (a ≡ true) ⊎ (b ≡ true)
or_cases true b h = inl refl
or_cases false b h = inr h

any-map :
    {A : Type 0} (f : A → String) (l : List A) (s : String)
    → any (str_eq s) (map f l) ≡ true
    → (t : A) × (f t ≡ s)
any-map f [] s h = cc
any-map f (t ∷ l) s h = elim (or_cases (str_eq s (f t)) (any (str_eq s) (map f l)) h) [
  | inl p ↦ (t, sym (str_eq→eq s (f t) p))
  | inr p ↦ any-map f l s p
]

status_text-valid : (t : Status) → valid (status_text t) ≡ true
unfolding valid
status_text-valid Status.pending = refl
status_text-valid Status.running = refl
status_text-valid Status.completed = refl
status_text-valid Status.compensating = refl
status_text-valid Status.compensated = refl
status_text-valid Status.failed = refl
status_text-valid Status.compensation_failed = refl

step_status_text-valid : (t : StepStatus) → valid_step (step_status_text t) ≡ true
unfolding valid_step
step_status_text-valid StepStatus.pending = refl
step_status_text-valid StepStatus.running = refl
step_status_text-valid StepStatus.succeeded = refl
step_status_text-valid StepStatus.failed = refl
step_status_text-valid StepStatus.compensating = refl
step_status_text-valid StepStatus.compensated = refl
step_status_text-valid StepStatus.compensation_failed = refl

abbrev statuses : List Status
statuses =
    Status.pending ∷ Status.running ∷ Status.completed ∷ Status.compensating ∷ Status.compensated
    ∷ Status.failed ∷ Status.compensation_failed ∷ []

abbrev step_statuses : List StepStatus
step_statuses =
    StepStatus.pending ∷ StepStatus.running ∷ StepStatus.succeeded ∷ StepStatus.failed
    ∷ StepStatus.compensating ∷ StepStatus.compensated ∷ StepStatus.compensation_failed ∷ []

-- A text is valid exactly if it is the text of one of the statuses, for executions as for steps.
pub valid_iff :
    ((s : String) → (valid s ≡ true) ↔ ((t : Status) × (status_text t ≡ s)))
    × ((s : String) → (valid_step s ≡ true) ↔ ((t : StepStatus) × (step_status_text t ≡ s)))
unfolding valid valid_step
valid_iff = (
  λ s. (
    λ h. any-map status_text statuses s h,
    λ p. subst (λ u. valid u ≡ true) p.1 (status_text-valid p.0),
  ),
  λ s. (
    λ h. any-map step_status_text step_statuses s h,
    λ p. subst (λ u. valid_step u ≡ true) p.1 (step_status_text-valid p.0),
  ),
)
