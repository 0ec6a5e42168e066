-- ===== src/Engine/Kept/Undo.antt =====
-- What compensate of execute.go keeps, and what it does to one step.
use Prim.Native.String.{◌++◌}
use go_orchestrator.Prelude.{
  ℕ, zero, suc, String, ◌≡◌, refl, sym, ap, ◌∙◌, ◌||◌, Option, none, some, List, [], ◌∷◌, All,
  get_elem?,
}
use go_orchestrator.Status.{StepStatus}
use go_orchestrator.Errors.{Error, error_text}
use go_orchestrator.Context.{Context, with_operation_id, compensation_operation_id, operation_id_of}
use go_orchestrator.Execution.{Execution, StepExecution}
use go_orchestrator.Definition.{StepDefinition, CompensateFunc}
use go_orchestrator.Engine.Monad.{
  M, Run, State, ◌>>=◌, ◌>>◌, pure, throw, index_out_of_range, ask_outside, record_call, undone,
  get_exec, put_exec, get_step, put_step,
}
use go_orchestrator.Engine.Notify.{span_context, start_span, end_span}
use go_orchestrator.Engine.Persist.{transition_step}
use go_orchestrator.Engine.Compensate.{
  has_status, get_definition, invoke_compensate, settle, undo, begin_undo, undo_with,
  compensate_step, compensate_loop,
}
use go_orchestrator.Engine.Kept.{
  Identity, identity, IsStepApart, IsKept, Keeps, pure-Keeps, after-Good, bind-Keeps, try-Keeps,
  OnSome,
}
use go_orchestrator.Engine.Kept.Notify.{
  if-Keeps, ask_outside-Keeps, start_span-Keeps, end_span-Keeps,
}
use go_orchestrator.Engine.Kept.Persist.{
  put_exec-Keeps, get_step-Good, get_step-Keeps, put_step-Good,
}
use go_orchestrator.Engine.Kept.Transitions.{transition_step-Keeps}
use go_orchestrator.Engine.Kept.Attempts.{operation_id_of-span_context}

module _ {W D : Type 0} (Same : W → W → Type 0) where
  found-IsStepApart :
      (l : List (StepDefinition W D)) (i : ℕ)
      → All (IsStepApart Same) l
      → OnSome (IsStepApart Same) (get_elem? l i)
  found-IsStepApart [] i h = tt
  found-IsStepApart (x ∷ l) zero h = h.0
  found-IsStepApart (x ∷ l) (suc i) h = found-IsStepApart l i h.1

module _ {W D : Type 0} {rs : Run W D} {v : Identity D} {Same : W → W → Type 0}
    {Holds : State W D → Type 0} (k : IsKept rs v Same Holds) where
  pub get_exec-Keeps :
      {A : Type 0} (f : Execution D → M W D A)
      → ((x : Execution D) → Keeps v Holds (f x))
      → Keeps v Holds (get_exec >>= f)
  get_exec-Keeps f h = record { apply = λ s g. (h s.exec).apply s g }

  -- A change of the step at an index that its name survives.
  pub edit_step-Keeps :
      {A : Type 0} (i : ℕ) (f : StepExecution D → StepExecution D)
      (rest : StepExecution D → M W D A)
      → ((x : StepExecution D) → (f x).name ≡ x.name)
      → ((x : StepExecution D) → Keeps v Holds (rest x))
      → Keeps v Holds (get_step i >>= λ x. put_step i (f x) >> rest x)
  edit_step-Keeps i f rest e h = record {
    apply = λ s g.
        get_step-Good k i (λ x. put_step i (f x) >> rest x) s g
          (λ x found.
            after-Good v Holds (put_step i (f x) s) (λ _. rest x)
              (put_step-Good k i x (f x) s found (e x) g) (λ _. h x));
  }

  record_undone-Keeps :
      (name : String) (ctx : Context) (x : Option D) (e : Option Error)
      → operation_id_of ctx ≡ compensation_operation_id v.0 name
      → Keeps v Holds (record_call (undone name ctx x e))
  record_undone-Keeps name ctx x e marked = record {
    apply = λ s g.
        let at : identity s.exec ≡ v = g.0 in
        (
          g.0,
          k.undoes s name ctx x e g.0
              (marked ∙ ap (λ (u : Identity D). compensation_operation_id u.0 name) (sym at)) g.1,
        );
  }

  invoke_compensate-Keeps :
      (ctx : Context) (x : StepExecution D) (f : CompensateFunc W D)
      → ((ctx : Context) (x : Option D) (w : W) → Same w (f ctx x w).1)
      → Keeps v Holds (invoke_compensate rs ctx x f)
  unfolding invoke_compensate operation_id_of
  invoke_compensate-Keeps ctx x f h = record {
    apply = λ s g. (called s.exec (ap (λ (u : Identity D). u.0) g.0)).apply s g;
  }
    where
      name : String
      name = "step:" ++ (x.name ++ ":compensate")

      called :
          (y : Execution D)
          → y.id ≡ v.0
          → let ctx' = with_operation_id ctx (compensation_operation_id y.id x.name) in
            Keeps v Holds (
              start_span rs ctx' name
              >> (ask_outside (f (span_context rs ctx' name) x.output) >>= λ e.
                  record_call (undone x.name (span_context rs ctx' name) x.output e)
                  >> (end_span rs ctx' name >> pure e)))
      called y same =
          let ctx' = with_operation_id ctx (compensation_operation_id y.id x.name) in
          let ctx'' = span_context rs ctx' name in
          bind-Keeps v Holds (start_span rs ctx' name) _ (start_span-Keeps k.world ctx' name) λ _.
            bind-Keeps v Holds (ask_outside (f ctx'' x.output)) _
              (ask_outside-Keeps k.world (f ctx'' x.output) (h ctx'' x.output))
              λ e.
                bind-Keeps v Holds (record_call (undone x.name ctx'' x.output e)) _
                  (record_undone-Keeps x.name ctx'' x.output e (
                    operation_id_of-span_context k ctx' name
                    ∙ ap (λ (id : String). compensation_operation_id id x.name) same))
                  λ _.
                    bind-Keeps v Holds (end_span rs ctx' name) (λ _. pure e)
                      (end_span-Keeps k.world ctx' name) (λ _. pure-Keeps v Holds e)

  pub settle-Keeps : (ctx : Context) (i : ℕ) (e : Option Error) → Keeps v Holds (settle rs ctx i e)
  unfolding settle
  settle-Keeps ctx i none = transition_step-Keeps k ctx i StepStatus.compensated
  settle-Keeps ctx i (some c) =
      edit_step-Keeps i (λ x. record x { error = error_text rs.runtime.format c })
        (λ _. transition_step rs ctx i StepStatus.compensation_failed) (λ _. refl)
        (λ _. transition_step-Keeps k ctx i StepStatus.compensation_failed)

  undo-Keeps :
      (ctx : Context) (i : ℕ) (f : CompensateFunc W D)
      → ((ctx : Context) (x : Option D) (w : W) → Same w (f ctx x w).1)
      → Keeps v Holds (undo rs ctx i f)
  unfolding undo
  undo-Keeps ctx i f h =
      get_step-Keeps k i (λ x. invoke_compensate rs ctx x f >>= settle rs ctx i)
        (λ x.
          bind-Keeps v Holds (invoke_compensate rs ctx x f) (settle rs ctx i)
            (invoke_compensate-Keeps ctx x f h) (settle-Keeps ctx i))

  pub begin_undo-Keeps :
      (ctx : Context) (i : ℕ) (st : StepStatus) → Keeps v Holds (begin_undo rs ctx i st)
  unfolding begin_undo
  begin_undo-Keeps ctx i StepStatus.succeeded =
      transition_step-Keeps k ctx i StepStatus.compensating
  begin_undo-Keeps ctx i StepStatus.pending = pure-Keeps v Holds none
  begin_undo-Keeps ctx i StepStatus.running = pure-Keeps v Holds none
  begin_undo-Keeps ctx i StepStatus.failed = pure-Keeps v Holds none
  begin_undo-Keeps ctx i StepStatus.compensating = pure-Keeps v Holds none
  begin_undo-Keeps ctx i StepStatus.compensated = pure-Keeps v Holds none
  begin_undo-Keeps ctx i StepStatus.compensation_failed = pure-Keeps v Holds none

  pub current-Keeps :
      (name : String)
      → Keeps v Holds (put_exec {W = W} (λ exec. record exec { current_step = name }))
  current-Keeps name =
      put_exec-Keeps k (λ exec. record exec { current_step = name }) (λ _. (refl, refl))

  undo_with-Keeps :
      (ctx : Context) (i : ℕ) (x : StepExecution D) (f : Option (CompensateFunc W D))
      → OnSome
          (λ (f : CompensateFunc W D).
            (ctx : Context) (x : Option D) (w : W) → Same w (f ctx x w).1)
          f
      → Keeps v Holds (undo_with rs ctx i x f)
  unfolding undo_with
  undo_with-Keeps ctx i x none h = pure-Keeps v Holds none
  undo_with-Keeps ctx i x (some f) h =
      bind-Keeps v Holds (put_exec (λ exec. record exec { current_step = x.name })) _
        (current-Keeps x.name)
        (λ _.
          try-Keeps v Holds (begin_undo rs ctx i x.status) (undo rs ctx i f)
            (begin_undo-Keeps ctx i x.status) (undo-Keeps ctx i f h))

  get_definition-Keeps :
      {A : Type 0} (i : ℕ) (f : StepDefinition W D → M W D A)
      → ((step : StepDefinition W D) → IsStepApart Same step → Keeps v Holds (f step))
      → Keeps v Holds (get_definition rs i >>= f)
  get_definition-Keeps i f h =
      by (get_elem? rs.definition.steps i)
        (found-IsStepApart Same rs.definition.steps i k.world.apart.steps)
    where
      chosen : Option (StepDefinition W D) → M W D (StepDefinition W D)
      chosen o = elim o [ none ↦ throw index_out_of_range | some step ↦ pure step ]

      by :
          (o : Option (StepDefinition W D))
          → OnSome (IsStepApart Same) o
          → Keeps v Holds (chosen o >>= f)
      by none a = record { apply = λ s g. g }
      by (some step) a = record { apply = λ s g. (h step a).apply s g }

  pub compensate_step-Keeps :
      (ctx : Context) (i : ℕ) (x : StepExecution D) → Keeps v Holds (compensate_step rs ctx i x)
  unfolding compensate_step
  compensate_step-Keeps ctx i x =
      if-Keeps (has_status StepStatus.succeeded x || has_status StepStatus.compensating x)
        (get_definition rs i >>= undone_with) (pure none)
        (get_definition-Keeps i undone_with
          (λ step h. undo_with-Keeps ctx i x step.compensate h.compensate))
        (pure-Keeps v Holds none)
    where
      undone_with : StepDefinition W D → M W D (Option Error)
      undone_with step = undo_with rs ctx i x step.compensate

  pub compensate_loop-Keeps : (i : ℕ) (ctx : Context) → Keeps v Holds (compensate_loop i rs ctx)
  unfolding compensate_loop
  compensate_loop-Keeps zero ctx = pure-Keeps v Holds none
  compensate_loop-Keeps (suc i) ctx = get_step-Keeps k i _ (λ x.
      try-Keeps v Holds (compensate_step rs ctx i x) (compensate_loop i rs ctx)
        (compensate_step-Keeps ctx i x) (compensate_loop-Keeps i ctx))
