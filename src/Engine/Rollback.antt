-- ===== src/Engine/Rollback.antt =====
-- What compensate of execute.go does to each step.
pub mod Over
pub mod Steps
pub mod Loop
pub mod Verdict
pub mod Order
pub mod Picks
use Prim.Native.String.{◌++◌ as ◌+++◌}
use go_orchestrator.Prelude.{
  ℕ, zero, suc, ◌+◌, ◌≤◌, ◌<◌, ◌≡◌, ◌≢◌, refl, sym, ap, subst, ◌∙◌, ◌⊎◌, inl, inr, Bool, true,
  false, Option, none, some, List, [], ◌∷◌, arith, length, length-set, get_elem?,
  get_elem?-set_self, set,
}
use go_orchestrator.Status.{Status, StepStatus, can_transition_step_status}
use go_orchestrator.Errors.{Error}
use go_orchestrator.Context.{Context, with_operation_id, compensation_operation_id}
use go_orchestrator.Execution.{Execution, StepExecution, enter_step, step_transition}
use go_orchestrator.Definition.{StepDefinition, CompensateFunc}
use go_orchestrator.Engine.Monad.{
  M, Run, State, Outcome, ok, panic, after, unless_error, ◌>>=◌, ◌>>◌, pure, get_step, put_step,
  undone,
}
use go_orchestrator.Engine.Notify.{span_context, notify_step, start_span, end_span}
use go_orchestrator.Engine.Persist.{lease, write, save, transition_step, accept_step}
use go_orchestrator.Engine.Compensate.{
  has_status, get_definition, invoke_compensate, settle, undo, begin_undo, undo_with,
  compensate_step, compensate_loop, compensate, verdict, all_compensated,
}
use go_orchestrator.Engine.Logic.{Ensures, after-Ensures}
use go_orchestrator.Engine.Safety.Persist.{
  step_transition_lem, enter_step_lem, notify_step-Quiet, Quiet, get_step_lem,
}

module _ {A : Type 0} where
  get_elem?-set_other :
      (xs : List A) (i j : ℕ) (v : A) → j ≢ i → get_elem? (set xs i v) j ≡ get_elem? xs j
  get_elem?-set_other [] i j v d = refl
  get_elem?-set_other (x ∷ xs) zero zero v d = absurd (d refl)
  get_elem?-set_other (x ∷ xs) zero (suc j) v d = refl
  get_elem?-set_other (x ∷ xs) (suc i) zero v d = refl
  get_elem?-set_other (x ∷ xs) (suc i) (suc j) v d =
      get_elem?-set_other xs i j v (λ e. d (ap suc e))

module _ {D : Type 0} where
  -- The step with this status, and with the name, the output and the error that it had.
  abbrev pub IsEntered : StepStatus → StepExecution D → StepExecution D → Type 0
  IsEntered to x y =
      (y.status ≡ to) × (y.name ≡ x.name) × (y.output ≡ x.output) × (y.error ≡ x.error)

  enter_step-IsEntered :
      (to : StepStatus) (at : ℕ) (x : StepExecution D) → IsEntered to x (enter_step to at x)
  enter_step-IsEntered to at x = ground arith

module _ {W D : Type 0} where
  -- No step but that at an index is changed.
  abbrev pub Changes : ℕ → State W D → State W D → Type 0
  Changes i s t =
      (length t.exec.steps ≡ length s.exec.steps)
      × ((j : ℕ) → j ≢ i → get_elem? t.exec.steps j ≡ get_elem? s.exec.steps j)

  -- No step but that at an index is changed, and with no error that one is as `P` says,
  -- in the state afterwards.
  abbrev pub Becomes :
      ℕ → (State W D → StepExecution D → Type 0) → State W D → Option Error → State W D → Type 0
  Becomes i P s e t =
      Changes i s t
      × (e ≡ none → (y : StepExecution D) × (get_elem? t.exec.steps i ≡ some y) × P t y)

  pub get_definition_lem :
      (rs : Run W D) (i : ℕ) (d : StepDefinition W D) (s : State W D)
      → get_elem? rs.definition.steps i ≡ some d
      → get_definition rs i s ≡ (ok d, s)
  get_definition_lem rs i d s h = ground arith

  pub Changes-trans : (i : ℕ) (s t u : State W D) → Changes i s t → Changes i t u → Changes i s u
  Changes-trans i s t u p q = (q.0 ∙ p.0, λ j d. q.1 j d ∙ p.1 j d)

  pub set-Changes :
      (i : ℕ) (v : StepExecution D) (s t : State W D)
      → t.exec.steps ≡ set s.exec.steps i v
      → Changes i s t
  set-Changes i v s t e = (
    ap length e ∙ length-set s.exec.steps i v,
    λ j d. ap (λ l. get_elem? l j) e ∙ get_elem?-set_other s.exec.steps i j v d,
  )

  save-exec :
      (rs : Run W D) (ctx : Context) (s : State W D)
      → Ensures (λ e t. t.exec ≡ s.exec) (save rs ctx s)
  unfolding save lease write
  save-exec rs ctx s = ground arith

  -- The context in which `invoke_compensate` calls the compensating action.
  abbrev pub called_in : Run W D → Context → StepExecution D → State W D → Context
  called_in rs ctx x s =
      span_context rs (with_operation_id ctx (compensation_operation_id s.exec.id x.name))
        ("step:" +++ (x.name +++ ":compensate"))

  pub invoke_compensate-exec :
      (rs : Run W D) (ctx : Context) (x : StepExecution D) (f : CompensateFunc W D) (s : State W D)
      → Ensures
          (λ e t.
            (t.exec ≡ s.exec)
            × (t.calls ≡ undone x.name (called_in rs ctx x s) x.output e ∷ s.calls))
          (invoke_compensate rs ctx x f s)
  unfolding invoke_compensate start_span end_span
  invoke_compensate-exec rs ctx x f s = ground arith

  pub get_step-Ensures :
      {A : Type 0} (Q : A → State W D → Type 0) (i : ℕ) (x : StepExecution D)
      (f : StepExecution D → M W D A) (s : State W D)
      → get_elem? s.exec.steps i ≡ some x
      → Ensures Q (f x s)
      → Ensures Q ((get_step i >>= f) s)
  get_step-Ensures Q i x f s found h =
      subst (λ (r : Outcome (StepExecution D) × State W D). Ensures Q (after r f))
        (sym (get_step_lem i x s found)) h

  -- The state once the step at an index is replaced.
  abbrev pub replaced : ℕ → StepExecution D → State W D → State W D
  replaced i y s = record s { exec = record s.exec { steps = set s.exec.steps i y } }

  accept_step-Ensures :
      {A : Type 0} (Q : A → State W D → Type 0) (i : ℕ) (x : StepExecution D) (to : StepStatus)
      (at : ℕ) (f : Unit {0} → M W D A) (s : State W D)
      → can_transition_step_status x.status to ≡ true
      → Ensures Q (f tt (replaced i (enter_step to at x) s))
      → Ensures Q ((accept_step i (step_transition x to at) >>= f) s)
  accept_step-Ensures Q i x to at f s allowed h =
      subst (λ (r : StepExecution D × Option Error). Ensures Q (after (accept_step i r s) f))
        (sym (step_transition_lem x to at allowed)) h

  -- The end of `transition_step`, by the error of the save.
  notified :
      (rs : Run W D) (ctx : Context) (i : ℕ) (to : StepStatus) (s t : State W D)
      (P : StepExecution D → Type 0) (y : StepExecution D) (e : Option Error)
      → t.exec.steps ≡ set s.exec.steps i y
      → get_elem? t.exec.steps i ≡ some y
      → P y
      → Ensures
          (Becomes i (λ u. P) s)
          (unless_error e (do z ← get_step i; notify_step rs ctx z to; pure none) t)
  notified rs ctx i to s t P y (some e) steps found st = (set-Changes i y s t steps, λ n. cc)
  notified rs ctx i to s t P y none steps found st =
      get_step-Ensures (Becomes i (λ u. P) s) i y (λ z. notify_step rs ctx z to >>= λ _. pure none)
        t found
        (after-Ensures (Quiet t) (Becomes i (λ u. P) s) (notify_step rs ctx y to t) (λ _. pure none)
          (notify_step-Quiet rs ctx y to t)
          (λ a u q.
            let same : u.exec.steps ≡ t.exec.steps = ap (λ (x : Execution D). x.steps) q.0 in
            (
              set-Changes i y s u (same ∙ steps),
              λ n. (y, ap (λ l. get_elem? l i) same ∙ found, st),
            )))

  pub transition_step-Becomes :
      (rs : Run W D) (ctx : Context) (i : ℕ) (to : StepStatus) (s : State W D) (x : StepExecution D)
      → get_elem? s.exec.steps i ≡ some x
      → can_transition_step_status x.status to ≡ true
      → Ensures (Becomes i (λ u. IsEntered to x) s) (transition_step rs ctx i to s)
  unfolding transition_step
  transition_step-Becomes rs ctx i to s x found allowed =
      let at = rs.runtime.now (rs.runtime.tick s.world) in
      let y = enter_step to at x in
      let s' : State W D = record s { world = rs.runtime.tick s.world } in
      let s'' = replaced i y s' in
      let Q = Becomes i (λ u. IsEntered to x) s in
      get_step-Ensures Q i x _ s found (
        accept_step-Ensures Q i x to at
          (λ _. save rs ctx >>= λ e.
            unless_error e (do z ← get_step i; notify_step rs ctx z to; pure none))
          s' allowed
          (after-Ensures (λ e t. t.exec ≡ s''.exec) Q (save rs ctx s'')
            (λ e. unless_error e (do z ← get_step i; notify_step rs ctx z to; pure none))
            (save-exec rs ctx s'')
            (λ e t q.
              let same : t.exec.steps ≡ set s.exec.steps i y =
                ap (λ (x : Execution D). x.steps) q in
              notified rs ctx i to s t (IsEntered to x) y e same
                (ap (λ l. get_elem? l i) same ∙ get_elem?-set_self s.exec.steps i y found)
                (enter_step-IsEntered to at x))))
