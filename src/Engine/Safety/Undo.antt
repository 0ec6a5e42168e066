-- ===== src/Engine/Safety/Undo.antt =====
-- The safety of the loop of compensate of execute.go, round by round: it leaves an execution that is
-- still compensating.
use go_orchestrator.Prelude.{
  ℕ, zero, suc, String, ◌≤◌, ◌<◌, ◌≡◌, refl, ◌∙◌, ◌⊎◌, true, ◌||◌, Option, none, some, arith,
  get_elem?, set, set_same, length, length-set, get_elem?-lt, get_elem?-set_self,
}
use go_orchestrator.Status.{Status, StepStatus, can_transition_step_status}
use go_orchestrator.Errors.{Error, error_text}
use go_orchestrator.Context.{Context}
use go_orchestrator.Execution.{StepExecution}
use go_orchestrator.Definition.{CompensateFunc}
use go_orchestrator.Engine.Monad.{Run, State, ◌>>=◌, pure, put_step, put_exec}
use go_orchestrator.Engine.Persist.{transition_step}
use go_orchestrator.Engine.Compensate.{
  ran, has_status, get_definition, invoke_compensate, settle, undo, begin_undo, undo_with,
  compensate_step, compensate_loop,
}
use go_orchestrator.Engine.Shapes.{Shape, IsSound, Backward, Backward-set}
use go_orchestrator.Engine.Logic.{
  Meets, At, Then, Finds, Passes, bind-Meets, try-Meets, try_some-Meets, weaken-Meets, if-Meets,
}
use go_orchestrator.Engine.Safety.Persist.{
  transition_step-Meets, get_step-Meets, put_step-Meets, done-Meets,
}

-- The shape of an execution that is compensating.
pub record IsUndoing (n : ℕ) (v : Shape) : Type 0 where
  pub undoing : v.0 ≡ Status.compensating
  pub sized : length v.1 ≡ n
  pub backward : Backward v.1

pub undoing-IsSound : {n : ℕ} {v : Shape} → IsUndoing n v → IsSound n v
undoing-IsSound u = record { sized = u.sized; fits = rw u.undoing u.backward }

-- Compensation moves a step that has run to another status of that kind.
IsUndoing-set :
    (i n : ℕ) (from to : StepStatus) (v : Shape)
    → get_elem? v.1 i ≡ some from
    → ran from ≡ true
    → ran to ≡ true
    → IsUndoing n v
    → IsUndoing n (v.0, set v.1 i to)
IsUndoing-set i n from to v found p q u = record {
  undoing = u.undoing;
  sized = length-set v.1 i to ∙ u.sized;
  backward = Backward-set i from to v.1 found p q u.backward;
}

module _ {W D : Type 0} (rs : Run W D) (ctx : Context) (n : ℕ) where
  -- What a function of the loop leaves: an execution that is still compensating.
  abbrev pub Undone : Option Error → State W D → Type 0
  Undone = Finds (IsUndoing n)

  Passes-Undone : Passes Undone
  Passes-Undone e s h = h

  -- A transition of a step that has run.
  move-Meets :
      (i : ℕ) (from to : StepStatus) (v : Shape)
      → get_elem? v.1 i ≡ some from
      → can_transition_step_status from to ≡ true
      → ran from ≡ true
      → ran to ≡ true
      → IsUndoing n v
      → Meets n v (transition_step rs ctx i to) (Then (v.0, set v.1 i to))
  move-Meets i from to v found allowed p q u =
      transition_step-Meets rs ctx i from to n v found allowed
        (undoing-IsSound (IsUndoing-set i n from to v found p q u))

  module _ (i : ℕ) (v : Shape) (u : IsUndoing n v) where
    last_move-Meets :
        (to : StepStatus)
        → get_elem? v.1 i ≡ some StepStatus.compensating
        → can_transition_step_status StepStatus.compensating to ≡ true
        → ran to ≡ true
        → Meets n v (transition_step rs ctx i to) Undone
    last_move-Meets to found allowed q =
        weaken-Meets n v (transition_step rs ctx i to) (Then (v.0, set v.1 i to)) Undone
          (λ e s h. found_shape e s h)
          (move-Meets i StepStatus.compensating to v found allowed refl q u)
      where
        found_shape : (e : Option Error) (s : State W D) → Then (v.0, set v.1 i to) e s → Undone e s
        found_shape none s h = rw h (IsUndoing-set i n StepStatus.compensating to v found refl q u)
        found_shape (some e) s h = h

    settle-Meets :
        (e : Option Error)
        → get_elem? v.1 i ≡ some StepStatus.compensating
        → Meets n v (settle rs ctx i e) Undone
    unfolding settle can_transition_step_status
    settle-Meets none found = last_move-Meets StepStatus.compensated found refl refl
    settle-Meets (some e) found =
        get_step-Meets i StepStatus.compensating n v _ Undone found λ x here.
          bind-Meets n v v (put_step i (record x { error = error_text rs.runtime.format e })) _
            Undone
            (rw (set_same v.1 i StepStatus.compensating found) at (
              put_step-Meets {W = W} i (record x { error = error_text rs.runtime.format e })
                StepStatus.compensating n v here))
            (λ _. last_move-Meets StepStatus.compensation_failed found refl refl)

    invoke_compensate-Meets :
        (x : StepExecution D) (f : CompensateFunc W D)
        → Meets n v (invoke_compensate rs ctx x f) (At v)
    unfolding invoke_compensate
    invoke_compensate-Meets x f = record { apply = λ s e safe. ground arith }

    undo-Meets :
        (f : CompensateFunc W D)
        → get_elem? v.1 i ≡ some StepStatus.compensating
        → Meets n v (undo rs ctx i f) Undone
    unfolding undo
    undo-Meets f found = get_step-Meets i StepStatus.compensating n v _ Undone found λ x here.
        bind-Meets n v v (invoke_compensate rs ctx x f) _ Undone (invoke_compensate-Meets x f)
          (λ e. settle-Meets e found)

  pub current-Meets :
      (name : String) (v : Shape)
      → Meets n v (put_exec {W = W} {D = D} (λ exec. record exec { current_step = name })) (At v)
  current-Meets name v = record { apply = λ s e safe. (safe, e) }

  -- The two statuses with something left to undo.
  abbrev IsOpen : StepStatus → Type 0
  IsOpen st = (st ≡ StepStatus.succeeded) ⊎ (st ≡ StepStatus.compensating)

  IsOpen-of_test :
      (x : StepExecution D)
      → (has_status StepStatus.succeeded x || has_status StepStatus.compensating x) ≡ true
      → IsOpen x.status
  IsOpen-of_test x h = ground arith

  get_definition-Meets :
      (i : ℕ) (v : Shape) → i < length rs.definition.steps → Meets n v (get_definition rs i) (At v)
  get_definition-Meets i v h =
      let (d, found) = get_elem?-lt rs.definition.steps i h in
      record { apply = λ s e safe. ground arith }

  open-ran : (st : StepStatus) → IsOpen st → ran st ≡ true
  open-ran st h = ground arith

  module _ (i : ℕ) (v : Shape) (u : IsUndoing n v) where
    begin_undo-Meets :
        (st : StepStatus)
        → IsOpen st
        → get_elem? v.1 i ≡ some st
        → Meets n v (begin_undo rs ctx i st) (Then (v.0, set v.1 i StepStatus.compensating))
    unfolding begin_undo can_transition_step_status
    begin_undo-Meets StepStatus.succeeded h found =
        move-Meets i StepStatus.succeeded StepStatus.compensating v found refl refl refl u
    begin_undo-Meets StepStatus.compensating h found =
        rw (set_same v.1 i StepStatus.compensating found) (done-Meets n v)
    begin_undo-Meets StepStatus.pending h found = absurd (ground arith)
    begin_undo-Meets StepStatus.running h found = absurd (ground arith)
    begin_undo-Meets StepStatus.failed h found = absurd (ground arith)
    begin_undo-Meets StepStatus.compensated h found = absurd (ground arith)
    begin_undo-Meets StepStatus.compensation_failed h found = absurd (ground arith)

    undo_with-Meets :
        (x : StepExecution D) (f : Option (CompensateFunc W D))
        → IsOpen x.status
        → get_elem? v.1 i ≡ some x.status
        → Meets n v (undo_with rs ctx i x f) Undone
    unfolding undo_with
    undo_with-Meets x none h found = record { apply = λ s e safe. (safe, rw e u) }
    undo_with-Meets x (some f) h found =
        bind-Meets n v v (put_exec (λ exec. record exec { current_step = x.name })) _ Undone
          (current-Meets x.name v)
          (λ _.
            try-Meets n v w (begin_undo rs ctx i x.status) (undo rs ctx i f) Undone Passes-Undone
              (begin_undo-Meets x.status h found)
              (undo-Meets i w
                (IsUndoing-set i n x.status StepStatus.compensating v found (open-ran x.status h)
                  refl u)
                f (get_elem?-set_self v.1 i StepStatus.compensating found)))
      where
        w : Shape
        w = (v.0, set v.1 i StepStatus.compensating)

    compensate_step-Meets :
        (x : StepExecution D)
        → length rs.definition.steps ≡ n
        → i < n
        → get_elem? v.1 i ≡ some x.status
        → Meets n v (compensate_step rs ctx i x) Undone
    unfolding compensate_step
    compensate_step-Meets x sized below found =
        if-Meets n v (has_status StepStatus.succeeded x || has_status StepStatus.compensating x)
          (get_definition rs i >>= λ step. undo_with rs ctx i x step.compensate) (pure none) Undone
          (λ h.
            bind-Meets n v v (get_definition rs i) _ Undone
              (get_definition-Meets i v (omega (arith, below)))
              (λ step. undo_with-Meets x step.compensate (IsOpen-of_test x h) found))
          (λ h. record { apply = λ s e safe. (safe, rw e u) })

  pub compensate_loop-Meets :
      (i : ℕ) (v : Shape)
      → IsUndoing n v
      → length rs.definition.steps ≡ n
      → i ≤ n
      → Meets n v (compensate_loop i rs ctx) Undone
  unfolding compensate_loop
  compensate_loop-Meets zero v u sized h = record { apply = λ s e safe. (safe, rw e u) }
  compensate_loop-Meets (suc i) v u sized h =
      let (st, found) = get_elem?-lt v.1 i (omega (arith, u.sized)) in
      get_step-Meets i st n v _ Undone found λ x here.
        try_some-Meets n v (compensate_step rs ctx i x) (compensate_loop i rs ctx) (IsUndoing n)
          Undone Passes-Undone (compensate_step-Meets i v u x sized h (rw here found))
          (λ w u'. compensate_loop-Meets i w u' sized (omega arith))
