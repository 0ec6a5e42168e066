-- ===== src/Engine/Rollback/Loop.antt =====
-- What compensate of execute.go does to all the steps before the failed one.
use go_orchestrator.Prelude.{
  List, some_inj, ℕ, zero, suc, ◌≤◌, ◌<◌, ◌≡◌, refl, sym, ap, subst, ◌∙◌, ◌⊎◌, inl, inr, Bool, true,
  false, ◌||◌, Option, none, some, arith, length, get_elem?, get_elem?-lt, is_some, Bool-cases,
}
use go_orchestrator.Status.{StepStatus}
use go_orchestrator.Errors.{Format, Error}
use go_orchestrator.Context.{Context}
use go_orchestrator.Execution.{StepExecution}
use go_orchestrator.Definition.{StepDefinition, CompensateFunc}
use go_orchestrator.Engine.Monad.{Call, M, Run, State, Outcome, after, unless_error, ◌>>=◌}
use go_orchestrator.Engine.Compensate.{
  has_status, get_definition, undo_with, compensate_step, compensate_loop,
}
use go_orchestrator.Engine.Logic.{Ensures, after-Ensures}
use go_orchestrator.Engine.Rollback.{Changes, Becomes, get_step-Ensures, get_definition_lem}
use go_orchestrator.Engine.Kept.Growth.{Extends, compensate_step-Extends, compensate_loop-Extends}
use go_orchestrator.Engine.Rollback.Over.{sooner-IsOver, longer-IsOver, IsOpen, IsOver}
use go_orchestrator.Engine.Rollback.Steps.{Ends, along-Ensures, weaken-Ensures, undo_with-Becomes}

-- What becomes of a step, by whether it has a compensating action: with one, a step that has
-- succeeded or was interrupted in its compensation is over; any other step stays as it is.
abbrev pub Settles :
    {D : Type 0}
    → Format
    → List (Call D)
    → List (Call D)
    → Bool
    → StepExecution D
    → StepExecution D
    → Type 0
Settles f before calls can x y =
    (can ≡ true → IsOpen x.status → IsOver f before calls x y)
    × (can ≡ false ⊎ ¬ IsOpen x.status → y ≡ x)

module _ {D : Type 0} where
  sooner-Settles :
      (f : Format) (first before calls : List (Call D)) (can : Bool) (x y : StepExecution D)
      → Extends first before
      → Settles f before calls can x y
      → Settles f first calls can x y
  sooner-Settles f first before calls can x y e h =
      (λ c o. sooner-IsOver f first before calls x x y e refl refl (h.0 c o), h.1)

  longer-Settles :
      (f : Format) (before calls more : List (Call D)) (can : Bool) (x y : StepExecution D)
      → Extends calls more
      → Settles f before calls can x y
      → Settles f before more can x y
  longer-Settles f before calls more can x y e h =
      (λ c o. longer-IsOver f before calls more x y e (h.0 c o), h.1)

IsOpen-test :
    {D : Type 0} (x : StepExecution D)
    → (has_status StepStatus.succeeded x || has_status StepStatus.compensating x) ≡ true
    → IsOpen x.status
IsOpen-test x h = ground arith

not_IsOpen-test :
    {D : Type 0} (x : StepExecution D)
    → (has_status StepStatus.succeeded x || has_status StepStatus.compensating x) ≡ false
    → ¬ IsOpen x.status
not_IsOpen-test x h = ground arith

module _ {W D : Type 0} where
  -- The step at an index is settled, from a state with these first calls.
  abbrev Settled :
      Run W D
      → ℕ
      → List (Call D)
      → Bool
      → StepExecution D
      → State W D
      → Option Error
      → State W D
      → Type 0
  Settled rs i before can x = Becomes i (λ u. Settles rs.runtime.format before u.calls can x)

  undo_with-Settles :
      (rs : Run W D) (ctx : Context) (i : ℕ) (x : StepExecution D) (f : Option (CompensateFunc W D))
      (s : State W D)
      → get_elem? s.exec.steps i ≡ some x
      → IsOpen x.status
      → Ensures (Settled rs i s.calls (is_some f) x s) (undo_with rs ctx i x f s)
  unfolding undo_with
  undo_with-Settles rs ctx i x none s found o =
      ((refl, λ j d. refl), λ n. (x, found, ((λ c. cc), λ k. refl)))
  undo_with-Settles rs ctx i x (some f) s found o =
      weaken-Ensures (Ends rs i s.calls x s) (Settled rs i s.calls true x s)
        (undo_with rs ctx i x (some f) s)
        (λ e t b. (
          b.0,
          λ n.
              let (y, g, p) = b.1 n in
              (y, g, ((λ c p'. p), λ k. elim k [ inl c ↦ cc | inr c ↦ absurd (c o) ])),
        ))
        (undo_with-Becomes rs ctx i x f s found o)

  get_definition-Ensures :
      {A : Type 0} (Q : A → State W D → Type 0) (rs : Run W D) (i : ℕ) (d : StepDefinition W D)
      (f : StepDefinition W D → M W D A) (s : State W D)
      → get_elem? rs.definition.steps i ≡ some d
      → Ensures Q (f d s)
      → Ensures Q ((get_definition rs i >>= f) s)
  get_definition-Ensures Q rs i d f s def h =
      subst (λ (r : Outcome (StepDefinition W D) × State W D). Ensures Q (after r f))
        (sym (get_definition_lem rs i d s def)) h

  compensate_step-Settles :
      (rs : Run W D) (ctx : Context) (i : ℕ) (x : StepExecution D) (d : StepDefinition W D)
      (s : State W D)
      → get_elem? s.exec.steps i ≡ some x
      → get_elem? rs.definition.steps i ≡ some d
      → Ensures (Settled rs i s.calls (is_some d.compensate) x s) (compensate_step rs ctx i x s)
  unfolding compensate_step
  compensate_step-Settles rs ctx i x d s found def =
      elim (Bool-cases
        (has_status StepStatus.succeeded x || has_status StepStatus.compensating x)) [
          | inl p ↦ rw p (
              get_definition-Ensures (Settled rs i s.calls (is_some d.compensate) x s) rs i d
                (λ d. undo_with rs ctx i x d.compensate) s def
                (undo_with-Settles rs ctx i x d.compensate s found (IsOpen-test x p)))
          | inr p ↦ rw p (
            (refl, λ j d. refl),
            λ n. (x, found, ((λ c o. absurd (not_IsOpen-test x p o)), λ k. refl)),
          )
        ]

last_or_below : (i j : ℕ) → j < suc i → (j ≡ i) ⊎ (j < i)
last_or_below i j h = ground arith

module _ {W D : Type 0} where
  -- The steps from index `k` on are as they were.
  abbrev pub Above : ℕ → State W D → State W D → Type 0
  Above k s t =
      (length t.exec.steps ≡ length s.exec.steps)
      × ((j : ℕ) → k ≤ j → get_elem? t.exec.steps j ≡ get_elem? s.exec.steps j)

  -- The steps below index `k` are settled.
  abbrev pub Below : Run W D → ℕ → State W D → State W D → Type 0
  Below rs k s t =
      (i : ℕ) (x : StepExecution D) (d : StepDefinition W D)
      → i < k
      → get_elem? s.exec.steps i ≡ some x
      → get_elem? rs.definition.steps i ≡ some d
      → (y : StepExecution D) × (get_elem? t.exec.steps i ≡ some y)
        × Settles rs.runtime.format s.calls t.calls (is_some d.compensate) x y

  Changes-Above : (i : ℕ) (s t : State W D) → Changes i s t → Above (suc i) s t
  Changes-Above i s t c = (c.0, λ j l. c.1 j (λ e. omega (arith, l, e)))

  grown-Below :
      (rs : Run W D) (i : ℕ) (x : StepExecution D) (d : StepDefinition W D) (s t u : State W D)
      → get_elem? s.exec.steps i ≡ some x
      → get_elem? rs.definition.steps i ≡ some d
      → Extends s.calls t.calls
      → Extends t.calls u.calls
      → Settled rs i s.calls (is_some d.compensate) x s none t
      → Above i t u
      → Below rs i t u
      → Below rs (suc i) s u
  grown-Below rs i x d s t u found def first then_ b above below j x' d' l found' def' =
      elim (last_or_below i j l) [
        | inl e ↦
            let (y, g, p) = b.1 refl in
            let ex : x ≡ x' = some_inj (sym found ∙ ap (get_elem? s.exec.steps) (sym e) ∙ found') in
            let ed : d ≡ d' =
              some_inj (sym def ∙ ap (get_elem? rs.definition.steps) (sym e) ∙ def') in
            (
              y,
              ap (get_elem? u.exec.steps) e ∙ above.1 i (omega arith) ∙ g,
              subst (λ x. Settles f s.calls u.calls (is_some d'.compensate) x y) ex
                  (subst
                    (λ (d : StepDefinition W D).
                      Settles f s.calls u.calls (is_some d.compensate) x y)
                    ed
                    (longer-Settles f s.calls t.calls u.calls (is_some d.compensate) x y then_ p)),
            )
        | inr m ↦
            let (y, g, p) = below j x' d' m (b.0.1 j (λ e. omega (arith, m, e)) ∙ found') def' in
            (y, g, sooner-Settles f s.calls t.calls u.calls (is_some d'.compensate) x' y first p)
      ]
    where
      f : Format
      f = rs.runtime.format

  pub compensate_loop_lem :
      (rs : Run W D) (ctx : Context) (k : ℕ) (s : State W D)
      → k ≤ length s.exec.steps
      → k ≤ length rs.definition.steps
      → Ensures (λ e t. Above k s t × (e ≡ none → Below rs k s t)) (compensate_loop k rs ctx s)
  unfolding compensate_loop
  compensate_loop_lem rs ctx zero s l m =
      ((refl, λ j h. refl), λ n i x d h f g. absurd (omega (arith, h)))
  compensate_loop_lem rs ctx (suc i) s l m =
      let (x, found) = get_elem?-lt s.exec.steps i (omega (arith, l)) in
      let (d, def) = get_elem?-lt rs.definition.steps i (omega (arith, m)) in
      get_step-Ensures Goal i x
        (λ x. compensate_step rs ctx i x >>= λ e. unless_error e (compensate_loop i rs ctx)) s found
        (after-Ensures (Round x d) Goal (compensate_step rs ctx i x s)
          (λ e. unless_error e (compensate_loop i rs ctx))
          (along-Ensures (Settled rs i s.calls (is_some d.compensate) x s) (Round x d)
            (λ t. Extends s.calls t.calls) (compensate_step rs ctx i x s)
            (compensate_step-Extends rs ctx i x s) (λ e t g b. (g, b))
            (compensate_step-Settles rs ctx i x d s found def))
          (go x d found def (λ t q. compensate_loop_lem rs ctx i t q (omega (arith, m)))))
    where
      Goal : Option Error → State W D → Type 0
      Goal e t = Above (suc i) s t × (e ≡ none → Below rs (suc i) s t)

      Round : StepExecution D → StepDefinition W D → Option Error → State W D → Type 0
      Round x d e t = Extends s.calls t.calls × Settled rs i s.calls (is_some d.compensate) x s e t

      Rest : State W D → Option Error → State W D → Type 0
      Rest t e u = Above i t u × (e ≡ none → Below rs i t u)

      go :
          (x : StepExecution D) (d : StepDefinition W D)
          → get_elem? s.exec.steps i ≡ some x
          → get_elem? rs.definition.steps i ≡ some d
          → ((t : State W D)
              → i ≤ length t.exec.steps
              → Ensures (Rest t) (compensate_loop i rs ctx t))
          → (e : Option Error) (t : State W D) → Round x d e t
          → Ensures Goal (unless_error e (compensate_loop i rs ctx) t)
      go x d found def again (some e) t b = (Changes-Above i s t b.1.0, λ n. cc)
      go x d found def again none t (first, b) =
          along-Ensures (Rest t) Goal (λ u. Extends t.calls u.calls) (compensate_loop i rs ctx t)
            (compensate_loop-Extends rs ctx i t)
            (λ e u then_ h. (
              (
                h.0.0 ∙ b.0.0,
                λ j q. h.0.1 j (omega (arith, q)) ∙ b.0.1 j (λ e. omega (arith, q, e)),
              ),
              λ n. grown-Below rs i x d s t u found def first then_ b h.0 (h.1 n),
            ))
            (again t (omega (arith, l, b.0.0)))
