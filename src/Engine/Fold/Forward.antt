-- ===== src/Engine/Fold/Forward.antt =====
-- The main loop of resumeRunning of execute.go computes the saga as a function, when nothing but a step can fail.
use go_orchestrator.Prelude.{
  ℕ, suc, String, ◌≡◌, refl, sym, ap, subst, Option, none, some, List, [], ◌∷◌, drop, map,
}
use go_orchestrator.Status.{Status, StepStatus}
use go_orchestrator.Errors.{Format, Error}
use go_orchestrator.Context.{Context}
use go_orchestrator.Execution.{Execution, StepExecution}
use go_orchestrator.Definition.{StepDefinition}
use go_orchestrator.Engine.Monad.{M, Run, State, Outcome, ok, panic, after, ◌>>=◌, ◌>>◌, poll}
use go_orchestrator.Engine.Persist.{transition_exec, transition_step}
use go_orchestrator.Engine.Attempts.{run_step}
use go_orchestrator.Engine.Compensate.{abort}
use go_orchestrator.Engine.Running.{
  find_failed, find_start, set_current, after_step, begin_step, forward_step, complete,
  forward_loop, resume_running_with, resume_running,
}
use go_orchestrator.Engine.Resume.{fresh_step}
use go_orchestrator.Engine.Rollback.Picks.{get_step-any}
use go_orchestrator.Engine.Landing.{
  Lands, GivesUp, Names, Writes-Lands, weaken-Lands, try-Lands, entered, transition_exec-Writes,
  transition_step-Breaks,
}
use go_orchestrator.Engine.Landing.Undo.{abort-Lands}
use go_orchestrator.Engine.Landing.Resume.{begin_step-Breaks}
use go_orchestrator.Engine.Fold.{PureStep, ArePure, IsCalm, IsOpen, continue, evaluate}
use go_orchestrator.Engine.Fold.Attempts.{Says, reply, poll-Says, run_step-Says}

module _ {D : Type 0} where
  -- With no error the execution is completed and has the output that was computed; an error is the
  -- one that was computed, or that one wrapped as a failed compensation.
  abbrev pub Yields : Option D × Option Error → Option Error → Execution D → Type 0
  Yields result none x = (x.status ≡ Status.completed) × (result ≡ (x.output, none))
  Yields result (some e) x =
      (original : Error) × (result ≡ (none, some original)) × Names original e x.status

  GivesUp-Yields :
      (original : Error) (result : Option D × Option Error)
      → result ≡ (none, some original)
      → (f : Format) (e : Option Error) (x : Execution D) → GivesUp f original e x
      → Yields result e x
  GivesUp-Yields original result h f none x g = absurd g
  GivesUp-Yields original result h f (some e) x g = (original, h, g.0)

  reply-none :
      (name : String) (out : Option D) (r : Option D × Option Error)
      (rest : Option D → Option D × Option Error)
      → (out, none) ≡ reply name r
      → continue name r rest ≡ rest out
  reply-none name out (o, none) rest h = ap (λ (u : Option D × Option Error). rest u.0) (sym h)
  reply-none name out (o, some e) rest h = cc

  reply-some :
      (name : String) (out : Option D) (e : Error) (r : Option D × Option Error)
      (rest : Option D → Option D × Option Error)
      → (out, some e) ≡ reply name r
      → continue name r rest ≡ (none, some e)
  reply-some name out e (o, none) rest h = cc
  reply-some name out e (o, some y) rest h =
      ap (λ (u : Option D × Option Error). (none, u.1)) (sym h)

module _ {W D : Type 0} where
  said-Lands :
      {A : Type 0} (P : A → Type 0) (Q : Option Error → Execution D → Type 0)
      (x : Outcome A × State W D) (f : A → M W D (Option Error))
      → Says P x
      → ((a : A) (s : State W D) → P a → Lands Q (f a s))
      → Lands Q (after x f)
  said-Lands P Q (ok a, s) f p h = h a s p
  said-Lands P Q (panic y, s) f p h = tt

module _ {W D : Type 0} where
  pub none_failed :
      (i : ℕ) (l : List (StepDefinition W D)) → find_failed i (map fresh_step l) ≡ none
  none_failed i [] = refl
  none_failed i (x ∷ l) = none_failed (suc i) l

  pub starts :
      (x : Option D) (l : List (StepDefinition W D)) → find_start 0 x (map fresh_step l) ≡ (0, x)
  starts x [] = refl
  starts x (y ∷ l) = refl

module _ {W D : Type 0} (rs : Run W D) (calm : IsCalm rs.runtime) where
  gives_up :
      (ctx : Context) (i : ℕ) (e : Error) (result : Option D × Option Error) (s : State W D)
      → result ≡ (none, some e)
      → Lands (Yields result) (abort rs ctx i e s)
  gives_up ctx i e result s h =
      weaken-Lands (GivesUp rs.runtime.format e) (Yields result) (abort rs ctx i e s)
        (GivesUp-Yields e result h rs.runtime.format) (abort-Lands rs ctx i e s)

  after_step-Lands :
      (ctx : Context) (i : ℕ) (name : String) (r : Option D × Option Error)
      (rest : Option D → Option D × Option Error) (next : Option D → M W D (Option Error))
      (a : Option D × Option Error) (s : State W D)
      → a ≡ reply name r
      → ((x : Option D) (t : State W D) → Lands (Yields (rest x)) (next x t))
      → Lands (Yields (continue name r rest)) (after_step rs ctx i next a s)
  unfolding after_step
  after_step-Lands ctx i name r rest next (out, some e) s h n =
      get_step-any (Lands (Yields (continue name r rest))) i _ s tt (λ x found.
        try-Lands (Yields (continue name r rest)) (transition_step rs ctx i StepStatus.failed _)
          (set_current "" >> abort rs ctx i e) (transition_step-Breaks rs ctx i StepStatus.failed _)
          (λ t. gives_up ctx i e (continue name r rest) _ (reply-some name out e r rest h)))
  after_step-Lands ctx i name r rest next (out, none) s h n =
      get_step-any (Lands (Yields (continue name r rest))) i _ s tt (λ x found.
        try-Lands (Yields (continue name r rest)) (transition_step rs ctx i StepStatus.succeeded _)
          (next out) (transition_step-Breaks rs ctx i StepStatus.succeeded _)
          (λ t.
            subst (λ (u : Option D × Option Error). Lands (Yields u) (next out t))
              (sym (reply-none name out r rest h)) (n out t)))

  forward_loop-Lands :
      (steps : List (StepDefinition W D)) (ps : List (PureStep D)) (ctx : Context) (i : ℕ)
      (x : Option D) (s : State W D)
      → ArePure steps ps
      → IsOpen ctx
      → Lands (Yields (evaluate ps x)) (forward_loop steps rs ctx none i x s)
  unfolding forward_loop complete forward_step evaluate
  forward_loop-Lands [] [] ctx i x s are h =
      let t : State W D = record s { exec = record s.exec { current_step = ""; output = x } } in
      Writes-Lands (Yields (x, none)) (entered rs Status.completed t)
        (transition_exec rs ctx Status.completed t)
        (transition_exec-Writes rs ctx Status.completed t) (refl, refl)
  forward_loop-Lands [] (p ∷ ps) ctx i x s are h = absurd are
  forward_loop-Lands (step ∷ rest) [] ctx i x s are h = absurd are
  forward_loop-Lands (step ∷ rest) (p ∷ ps) ctx i x s are h =
      said-Lands (λ o. o ≡ none) (Yields (evaluate (p ∷ ps) x)) (poll rs.runtime ctx s)
        (forward_step rs ctx none i step x next) (poll-Says rs calm ctx s h)
        (round (λ z w. forward_loop-Lands rest ps ctx (suc i) z w are.1 h))
    where
      next : Option D → M W D (Option Error)
      next = forward_loop rest rs ctx none (suc i)

      round :
          ((z : Option D) (w : State W D) → Lands (Yields (evaluate ps z)) (next z w))
          → (why : Option Error) (t : State W D) → why ≡ none
          → Lands (Yields (evaluate (p ∷ ps) x)) (forward_step rs ctx none i step x next why t)
      round n (some e) t q = cc
      round n none t q =
          get_step-any (Lands (Yields (evaluate (p ∷ ps) x))) i _
            (record t { exec = record t.exec { current_step = step.name } }) tt
            (λ y found.
              try-Lands (Yields (evaluate (p ∷ ps) x)) (begin_step rs ctx i y.status _)
                (run_step rs ctx none i step x >>= after_step rs ctx i next)
                (begin_step-Breaks rs ctx i y.status _)
                (λ u.
                  said-Lands (λ r. r ≡ reply step.name (p.act x)) (Yields (evaluate (p ∷ ps) x))
                    (run_step rs ctx none i step x u) (after_step rs ctx i next)
                    (run_step-Says rs calm step p are.0 x ctx i u h)
                    (λ r v e.
                      after_step-Lands ctx i p.name (p.act x) (evaluate ps) next r v
                        (rw (sym are.0.named) e) n)))

  -- A run of an execution that has not been touched.
  pub resume_running-Lands :
      (ps : List (PureStep D)) (ctx : Context) (x : Option D) (s : State W D)
      → ArePure rs.definition.steps ps
      → IsOpen ctx
      → find_failed 0 s.exec.steps ≡ none
      → find_start 0 s.exec.input s.exec.steps ≡ (0, x)
      → Lands (Yields (evaluate ps x)) (resume_running rs ctx none s)
  unfolding resume_running resume_running_with
  resume_running-Lands ps ctx x s are h failed found =
      subst
        (λ (o : Option (ℕ × StepExecution D)).
          Lands (Yields (evaluate ps x)) (resume_running_with rs ctx none s.exec o s))
        (sym failed)
        (subst
          (λ (u : ℕ × Option D).
            Lands (Yields (evaluate ps x))
              (forward_loop (drop u.0 rs.definition.steps) rs ctx none u.0 u.1 s))
          (sym found) (forward_loop-Lands rs.definition.steps ps ctx 0 x s are h))
