-- ===== src/Engine/Rollback/Picks.antt =====
-- compensate of execute.go runs each compensation at most once, the last step's first.
use mathlib.Core.List.{append_assoc}
use go_orchestrator.Prelude.{
  some_inj, ℕ, zero, suc, String, ◌≡◌, refl, sym, ap, subst, ◌∙◌, ◌⊎◌, inl, inr, ◌||◌, Option, none,
  some, List, [], ◌∷◌, ◌++◌, arith, get_elem?, Option-cases, Bool-cases,
}
use go_orchestrator.Status.{StepStatus}
use go_orchestrator.Errors.{Error}
use go_orchestrator.Context.{Context}
use go_orchestrator.Execution.{StepExecution}
use go_orchestrator.Definition.{StepDefinition, CompensateFunc}
use go_orchestrator.Engine.Monad.{
  M, Run, State, Outcome, ok, panic, index_out_of_range, after, unless_error, ◌>>=◌, pure, get_step,
  get_exec,
}
use go_orchestrator.Engine.Notify.{start_span, end_span}
use go_orchestrator.Engine.Compensate.{
  has_status, get_definition, invoke_compensate, settle, undo, begin_undo, undo_with,
  compensate_step, compensate_loop, compensate, verdict,
}
use go_orchestrator.Engine.Safety.Persist.{get_step_lem}
use go_orchestrator.Engine.Rollback.{get_definition_lem}
use go_orchestrator.Engine.Rollback.Order.{
  undone_names, names, seen, Mute, settle-Mute, begin_undo-Mute, no_step,
}

-- A choice of the first `k` names, in their order, each at most once.
pub data Chosen (l : List String) : ℕ → List String → Type 0 where
  nothing : Chosen l 0 []
  leave : (k : ℕ) (ns : List String) → Chosen l k ns → Chosen l (suc k) ns
  add :
      (k : ℕ) (n : String) (ns : List String)
      → get_elem? l k ≡ some n
      → Chosen l k ns
      → Chosen l (suc k) (ns ++ (n ∷ []))

none-Chosen : (l : List String) (k : ℕ) → Chosen l k []
none-Chosen l zero = nothing
none-Chosen l (suc k) = leave k [] (none-Chosen l k)

get_elem?-names :
    {D : Type 0} (l : List (StepExecution D)) (i : ℕ) (x : StepExecution D)
    → get_elem? l i ≡ some x
    → get_elem? (names l) i ≡ some x.name
get_elem?-names [] i x h = cc
get_elem?-names (y ∷ l) zero x h = ap (λ (o : StepExecution _). some o.name) (some_inj h)
get_elem?-names (y ∷ l) (suc i) x h = get_elem?-names l i x h

module _ {W D : Type 0} where
  -- At most the compensation of the step at an index is called, once.
  abbrev pub Picks : {A : Type 0} → ℕ → List String × List String → Outcome A × State W D → Type 0
  Picks i v r =
      (seen r.1 ≡ v) ⊎ (n : String) × (get_elem? v.1 i ≡ some n) × (seen r.1 ≡ (n ∷ v.0, v.1))

  pub get_step-any :
      {A : Type 0} (P : Outcome A × State W D → Type 0) (i : ℕ) (f : StepExecution D → M W D A)
      (s : State W D)
      → P (panic index_out_of_range, s)
      → ((x : StepExecution D) → get_elem? s.exec.steps i ≡ some x → P (f x s))
      → P ((get_step i >>= f) s)
  get_step-any P i f s p h = elim (Option-cases (get_elem? s.exec.steps i)) [
    | inl e ↦
        subst (λ (r : Outcome (StepExecution D) × State W D). P (after r f)) (sym (no_step i s e)) p
    | inr (x, e) ↦
        subst (λ (r : Outcome (StepExecution D) × State W D). P (after r f))
          (sym (get_step_lem i x s e)) (h x e)
  ]

  seen-after :
      {A B : Type 0} (r : Outcome A × State W D) (f : A → M W D B)
      → ((a : A) (t : State W D) → Mute t (f a t))
      → seen (after r f).1 ≡ seen r.1
  seen-after (ok a, t) f h = h a t
  seen-after (panic p, t) f h = refl

  seen-invoke_compensate :
      (rs : Run W D) (ctx : Context) (x : StepExecution D) (f : CompensateFunc W D) (s : State W D)
      → seen (invoke_compensate rs ctx x f s).1
        ≡ (x.name ∷ undone_names s.calls, names s.exec.steps)
  unfolding invoke_compensate start_span end_span
  seen-invoke_compensate rs ctx x f s = ground arith

  undo-Picks :
      (rs : Run W D) (ctx : Context) (i : ℕ) (f : CompensateFunc W D) (s : State W D)
      → Picks i (seen s) (undo rs ctx i f s)
  unfolding undo
  undo-Picks rs ctx i f s =
      get_step-any (Picks i (seen s)) i (λ x. invoke_compensate rs ctx x f >>= settle rs ctx i) s
        (inl refl)
        (λ x found. inr (
          x.name,
          get_elem?-names s.exec.steps i x found,
          seen-after (invoke_compensate rs ctx x f s) (settle rs ctx i) (settle-Mute rs ctx i)
              ∙ seen-invoke_compensate rs ctx x f s,
        ))

  undo_with-Picks :
      (rs : Run W D) (ctx : Context) (i : ℕ) (x : StepExecution D) (f : Option (CompensateFunc W D))
      (s : State W D)
      → Picks i (seen s) (undo_with rs ctx i x f s)
  unfolding undo_with
  undo_with-Picks rs ctx i x none s = inl refl
  undo_with-Picks rs ctx i x (some f) s =
      let s' : State W D = record s { exec = record s.exec { current_step = x.name } } in
      go (begin_undo rs ctx i x.status s') (begin_undo-Mute rs ctx i x.status s')
    where
      go :
          (r : Outcome (Option Error) × State W D)
          → seen r.1 ≡ seen s
          → Picks i (seen s) (after r (λ e. unless_error e (undo rs ctx i f)))
      go (ok none, t) h = subst (λ v. Picks i v (undo rs ctx i f t)) h (undo-Picks rs ctx i f t)
      go (ok (some e), t) h = inl h
      go (panic p, t) h = inl h

  missing_definition :
      (rs : Run W D) (i : ℕ) (s : State W D)
      → get_elem? rs.definition.steps i ≡ none
      → get_definition rs i s ≡ (panic index_out_of_range, s)
  missing_definition rs i s h = ground arith

  defined-Picks :
      (rs : Run W D) (ctx : Context) (i : ℕ) (x : StepExecution D) (s : State W D)
      → Picks i (seen s) ((get_definition rs i >>= λ d. undo_with rs ctx i x d.compensate) s)
  defined-Picks rs ctx i x s = elim (Option-cases (get_elem? rs.definition.steps i)) [
    | inl e ↦ moved (sym (missing_definition rs i s e)) (inl refl)
    | inr (d, e) ↦
        moved (sym (get_definition_lem rs i d s e)) (undo_with-Picks rs ctx i x d.compensate s)
  ]
    where
      moved :
          {r r' : Outcome (StepDefinition W D) × State W D}
          → r ≡ r'
          → Picks i (seen s) (after r (λ d. undo_with rs ctx i x d.compensate))
          → Picks i (seen s) (after r' (λ d. undo_with rs ctx i x d.compensate))
      moved e h =
          subst
            (λ (r : Outcome (StepDefinition W D) × State W D).
              Picks i (seen s) (after r (λ d. undo_with rs ctx i x d.compensate)))
            e h

  compensate_step-Picks :
      (rs : Run W D) (ctx : Context) (i : ℕ) (x : StepExecution D) (s : State W D)
      → Picks i (seen s) (compensate_step rs ctx i x s)
  unfolding compensate_step
  compensate_step-Picks rs ctx i x s =
      elim (Bool-cases
        (has_status StepStatus.succeeded x || has_status StepStatus.compensating x)) [
          | inl p ↦ rw p (defined-Picks rs ctx i x s)
          | inr p ↦ rw p (inl refl)
        ]

  -- The names of the compensations called are a choice of the first `k` names.
  abbrev pub Calls : {A : Type 0} → ℕ → List String × List String → Outcome A × State W D → Type 0
  Calls k v r = (ns : List String) × Chosen v.1 k ns × (seen r.1 ≡ (ns ++ v.0, v.1))

  Picks-Calls :
      {A : Type 0} (i : ℕ) (v : List String × List String) (r : Outcome A × State W D)
      → Picks i v r
      → Calls (suc i) v r
  Picks-Calls i v r (inl e) = ([], none-Chosen v.1 (suc i), e)
  Picks-Calls i v r (inr (n, at, e)) = (n ∷ [], add i n [] at (none-Chosen v.1 i), e)

  -- A choice below an index, after at most the step at the index.
  Calls-suc :
      {A B : Type 0} (i : ℕ) (v : List String × List String) (r : Outcome A × State W D)
      (r' : Outcome B × State W D)
      → Picks i v r
      → Calls i (seen r.1) r'
      → Calls (suc i) v r'
  Calls-suc i v r r' (inl e) h =
      let (ns, c, p) = subst (λ w. Calls i w r') e h in (ns, leave i ns c, p)
  Calls-suc i v r r' (inr (n, at, e)) h =
      let (ns, c, p) = subst (λ w. Calls i w r') e h in
      (ns ++ (n ∷ []), add i n ns at c, p ∙ ap (λ l. (l, v.1)) (sym (append_assoc ns (n ∷ []) v.0)))

  compensate_loop-Calls :
      (rs : Run W D) (ctx : Context) (k : ℕ) (s : State W D)
      → Calls k (seen s) (compensate_loop k rs ctx s)
  unfolding compensate_loop
  compensate_loop-Calls rs ctx zero s = ([], nothing, refl)
  compensate_loop-Calls rs ctx (suc i) s =
      get_step-any (Calls (suc i) (seen s)) i
        (λ x. compensate_step rs ctx i x >>= λ e. unless_error e (compensate_loop i rs ctx)) s
        ([], none-Chosen (names s.exec.steps) (suc i), refl)
        (λ x found.
          go (compensate_loop-Calls rs ctx i) (compensate_step rs ctx i x s)
            (compensate_step-Picks rs ctx i x s))
    where
      go :
          ((t : State W D) → Calls i (seen t) (compensate_loop i rs ctx t))
          → (r : Outcome (Option Error) × State W D) → Picks i (seen s) r
          → Calls (suc i) (seen s) (after r (λ e. unless_error e (compensate_loop i rs ctx)))
      go again (ok none, t) p =
          Calls-suc {A = Option Error} i (seen s) (ok none, t) (compensate_loop i rs ctx t) p
            (again t)
      go again (ok (some e), t) p = Picks-Calls {A = Option Error} i (seen s) (ok (some e), t) p
      go again (panic e, t) p = Picks-Calls {A = Option Error} i (seen s) (panic e, t) p

  -- The compensations that `compensate` calls, the newest first, are those of some of the steps
  -- before `failed_at`, in the order of the steps and each at most once. So they are called from the
  -- last step to the first, and none is called twice, also when a store error breaks it off. No step's
  -- name is changed.
  pub compensate-Calls :
      (rs : Run W D) (ctx : Context) (failed_at : ℕ) (s : State W D)
      → Calls failed_at (undone_names s.calls, names s.exec.steps) (compensate rs ctx failed_at s)
  unfolding compensate
  compensate-Calls rs ctx failed_at s =
      let (ns, c, p) = compensate_loop-Calls rs ctx failed_at s in
      (
        ns,
        c,
        seen-after (compensate_loop failed_at rs ctx s)
              (λ e. get_exec >>= λ exec. pure (verdict failed_at exec e)) (λ a t. refl)
            ∙ p,
      )
