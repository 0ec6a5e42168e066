-- ===== src/Engine/Rollback/Steps.antt =====
-- What a round of compensate of execute.go does to its step.
use go_orchestrator.Prelude.{
  List, [], ◌∷◌, ◌++◌, ℕ, ◌≡◌, refl, ap, ◌∙◌, inl, inr, Option, none, some, length, get_elem?,
  get_elem?-set_self,
}
use go_orchestrator.Status.{StepStatus, can_transition_step_status}
use go_orchestrator.Errors.{Error, error_text}
use go_orchestrator.Context.{Context}
use go_orchestrator.Execution.{Execution, StepExecution}
use go_orchestrator.Definition.{CompensateFunc}
use go_orchestrator.Engine.Monad.{
  Run, State, Outcome, Call, undone, ok, panic, unless_error, ◌>>=◌, put_step,
}
use go_orchestrator.Engine.Persist.{transition_step}
use go_orchestrator.Engine.Compensate.{invoke_compensate, settle, undo, begin_undo, undo_with}
use go_orchestrator.Engine.Logic.{Ensures, after-Ensures}
use go_orchestrator.Engine.Rollback.{
  Changes, Becomes, Changes-trans, set-Changes, invoke_compensate-exec, get_step-Ensures, replaced,
  transition_step-Becomes, IsEntered, called_in,
}
use go_orchestrator.Engine.Kept.Growth.{Extends, settle-Extends, begin_undo-Extends}
use go_orchestrator.Engine.Rollback.Over.{IsOpen, IsMarked, IsOver, sooner-IsOver}

module _ {W D : Type 0} where
  pub weaken-Ensures :
      {A : Type 0} (P Q : A → State W D → Type 0) (r : Outcome A × State W D)
      → ((a : A) (t : State W D) → P a t → Q a t)
      → Ensures P r
      → Ensures Q r
  weaken-Ensures P Q (ok a, t) h p = h a t p
  weaken-Ensures P Q (panic x, t) h p = p

  -- A first part that changes the same step only.
  then_Becomes :
      (i : ℕ) (P : State W D → StepExecution D → Type 0) (s t : State W D) (e : Option Error)
      (u : State W D)
      → Changes i s t
      → Becomes i P t e u
      → Becomes i P s e u
  then_Becomes i P s t e u c b = (Changes-trans i s t u c b.0, b.1)

  settle-Becomes :
      (rs : Run W D) (ctx : Context) (i : ℕ) (x : StepExecution D) (c : Option Error)
      (s : State W D)
      → get_elem? s.exec.steps i ≡ some x
      → x.status ≡ StepStatus.compensating
      → Ensures (Becomes i (λ u. IsMarked rs.runtime.format c) s) (settle rs ctx i c s)
  unfolding settle can_transition_step_status
  settle-Becomes rs ctx i x none s found st =
      weaken-Ensures (Becomes i (λ u. IsEntered StepStatus.compensated x) s)
        (Becomes i (λ u. IsMarked rs.runtime.format none) s)
        (transition_step rs ctx i StepStatus.compensated s)
        (λ e t b. (b.0, λ n. let (y, f, p) = b.1 n in (y, f, p.0)))
        (transition_step-Becomes rs ctx i StepStatus.compensated s x found (rw st refl))
  settle-Becomes rs ctx i x (some c) s found st =
      let y = record x { error = error_text rs.runtime.format c } in
      let Q = Becomes i (λ u. IsMarked rs.runtime.format (some c)) s in
      get_step-Ensures Q i x
        (λ x. put_step i (record x { error = error_text rs.runtime.format c }) >>= λ _.
          transition_step rs ctx i StepStatus.compensation_failed)
        s found
        (weaken-Ensures
          (Becomes i (λ u. IsEntered StepStatus.compensation_failed y) (replaced i y s)) Q
          (transition_step rs ctx i StepStatus.compensation_failed (replaced i y s))
          (λ e t b.
            then_Becomes i (λ u. IsMarked rs.runtime.format (some c)) s (replaced i y s) e t
              (set-Changes i y s (replaced i y s) refl)
              (b.0, λ n. let (z, f, p) = b.1 n in (z, f, (p.0, p.3))))
          (transition_step-Becomes rs ctx i StepStatus.compensation_failed (replaced i y s) y
            (get_elem?-set_self s.exec.steps i y found) (rw st refl)))

  -- The step at an index is over, from a state with these first calls.
  abbrev pub Ends :
      Run W D → ℕ → List (Call D) → StepExecution D → State W D → Option Error → State W D → Type 0
  Ends rs i before x = Becomes i (λ u. IsOver rs.runtime.format before u.calls x)

  -- What is true of the state after a function besides what it ensures.
  pub along-Ensures :
      {A : Type 0} (P Q : A → State W D → Type 0) (R : State W D → Type 0)
      (r : Outcome A × State W D)
      → R r.1
      → ((a : A) (t : State W D) → R t → P a t → Q a t)
      → Ensures P r
      → Ensures Q r
  along-Ensures P Q R (ok a, t) k h p = h a t k p
  along-Ensures P Q R (panic x, t) k h p = p

  undo-Becomes :
      (rs : Run W D) (ctx : Context) (i : ℕ) (x : StepExecution D) (f : CompensateFunc W D)
      (s : State W D)
      → get_elem? s.exec.steps i ≡ some x
      → x.status ≡ StepStatus.compensating
      → Ensures (Ends rs i s.calls x s) (undo rs ctx i f s)
  unfolding undo
  undo-Becomes rs ctx i x f s found st =
      get_step-Ensures Q i x (λ x. invoke_compensate rs ctx x f >>= settle rs ctx i) s found
        (after-Ensures Called Q (invoke_compensate rs ctx x f s) (settle rs ctx i)
          (invoke_compensate-exec rs ctx x f s)
          (λ c t q.
            let same : t.exec.steps ≡ s.exec.steps = ap (λ (x : Execution D). x.steps) q.0 in
            along-Ensures (Becomes i (λ u. IsMarked rs.runtime.format c) t) Q
              (λ u. Extends t.calls u.calls) (settle rs ctx i c t) (settle-Extends rs ctx i c t)
              (λ e u grown b. (
                Changes-trans i s t u (ap length same, λ j d. ap (λ l. get_elem? l j) same) b.0,
                λ n.
                    let (y, g, p) = b.1 n in
                    (
                      y,
                      g,
                      (
                        grown.0,
                        [],
                        called_in rs ctx x s,
                        c,
                        grown.1 ∙ ap (λ l. grown.0 ++ l) q.1,
                        p,
                      ),
                    ),
              ))
              (settle-Becomes rs ctx i x c t (ap (λ l. get_elem? l i) same ∙ found) st)))
    where
      Q : Option Error → State W D → Type 0
      Q = Ends rs i s.calls x s

      Called : Option Error → State W D → Type 0
      Called e t =
          (t.exec ≡ s.exec) × (t.calls ≡ undone x.name (called_in rs ctx x s) x.output e ∷ s.calls)

  begin_undo-Becomes :
      (rs : Run W D) (ctx : Context) (i : ℕ) (x : StepExecution D) (s : State W D)
      → get_elem? s.exec.steps i ≡ some x
      → IsOpen x.status
      → Ensures
          (Becomes i (λ u. IsEntered StepStatus.compensating x) s)
          (begin_undo rs ctx i x.status s)
  unfolding begin_undo can_transition_step_status
  begin_undo-Becomes rs ctx i x s found (inl st) =
      rw st (transition_step-Becomes rs ctx i StepStatus.compensating s x found (rw st refl))
  begin_undo-Becomes rs ctx i x s found (inr st) =
      rw st ((refl, λ j d. refl), λ n. (x, found, (st, refl, refl, refl)))

  pub undo_with-Becomes :
      (rs : Run W D) (ctx : Context) (i : ℕ) (x : StepExecution D) (f : CompensateFunc W D)
      (s : State W D)
      → get_elem? s.exec.steps i ≡ some x
      → IsOpen x.status
      → Ensures (Ends rs i s.calls x s) (undo_with rs ctx i x (some f) s)
  unfolding undo_with
  undo_with-Becomes rs ctx i x f s found open_ =
      after-Ensures Begun (Ends rs i s.calls x s) (begin_undo rs ctx i x.status s')
        (λ e. unless_error e (undo rs ctx i f))
        (along-Ensures Marked Begun (λ t. Extends s.calls t.calls) (begin_undo rs ctx i x.status s')
          (begin_undo-Extends rs ctx i x.status s') (λ e t g b. (g, b))
          (begin_undo-Becomes rs ctx i x s' found open_))
        go
    where
      s' : State W D
      s' = record s { exec = record s.exec { current_step = x.name } }

      Marked : Option Error → State W D → Type 0
      Marked = Becomes i (λ u. IsEntered StepStatus.compensating x) s'

      Begun : Option Error → State W D → Type 0
      Begun e t = Extends s.calls t.calls × Marked e t

      go :
          (e : Option Error) (t : State W D)
          → Begun e t
          → Ensures (Ends rs i s.calls x s) (unless_error e (undo rs ctx i f) t)
      go (some e) t b = (b.1.0, λ n. cc)
      go none t (grown, b) =
          let (y, f', p) = b.1 refl in
          weaken-Ensures (Ends rs i t.calls y t) (Ends rs i s.calls x s) (undo rs ctx i f t)
            (λ e u b'. (
              Changes-trans i s t u b.0 b'.0,
              λ n.
                  let (z, g, q) = b'.1 n in
                  (
                    z,
                    g,
                    sooner-IsOver rs.runtime.format s.calls t.calls u.calls x y z grown p.1 p.2 q,
                  ),
            ))
            (undo-Becomes rs ctx i y f t f' p.0)
