-- ===== src/Recovery/Loop.antt =====
-- Recover of recovery.go gives each execution that was listed a result of its own.
use go_orchestrator.Prelude.{
  ℕ, ◌≡◌, refl, Bool, true, false, Option, none, some, List, [], ◌∷◌, All, length,
}
use go_orchestrator.Status.{Status, is_terminal}
use go_orchestrator.Errors.{Error, recovery_skipped}
use go_orchestrator.Context.{Context}
use go_orchestrator.Interfaces.{Runtime}
use go_orchestrator.Execution.{Execution}
use go_orchestrator.Definition.{Definition}
use go_orchestrator.Definition.Names.{HaveActions}
use go_orchestrator.Engine.Monad.{State, Outcome, ok, panic}
use go_orchestrator.Engine.Shapes.{shape, IsSound}
use go_orchestrator.Engine.Logic.{Ensures}
use go_orchestrator.Engine.Safety.Execute.{EndsWell, resume_ends}
use go_orchestrator.Recovery.{
  RecoveryManager, RecoveryResult, resume_one, find_saga, skips, no_definition, finished, joined,
  with_no_error, recover_found, recover_one, recover_loop, recover_listed, sort,
}
use go_orchestrator.Recovery.Order.{insert-All}

module _ {W D : Type 0} (r : Runtime W) (m : RecoveryManager W D) (ctx : Context) where
  -- The definition that is registered for the execution, if there is one, can resume it.
  abbrev pub IsResumable : Option (Definition W D) → Execution D → Type 0
  IsResumable none x = Unit
  IsResumable (some d) x =
      HaveActions d.steps × IsSound (length d.steps) (shape x) × (is_terminal x.status ≡ false)

  -- What the result of an execution says: that no saga of its name is registered, or that it was
  -- skipped, in both cases with the execution as it was; or, with no error, that it is completed.
  abbrev pub Reports : Option (Definition W D) → Bool → Execution D → RecoveryResult D → Type 0
  Reports none b x res = (res.execution ≡ x) × (res.err ≡ some (no_definition r.format x))
  Reports (some d) true x res = (res.execution ≡ x) × (res.err ≡ some recovery_skipped)
  Reports (some d) false x res = res.err ≡ none → res.execution.status ≡ Status.completed

  abbrev pub Matches : List (Execution D) → List (RecoveryResult D) → Type 0
  Matches [] [] = Unit
  Matches (x ∷ l) (res ∷ results) =
      Reports (find_saga x.saga_name m.sagas) (skips m.policy x) x res × Matches l results
  Matches [] (res ∷ results) = ⊥
  Matches (x ∷ l) [] = ⊥

  -- It holds of the result, and nothing has panicked.
  abbrev pub Gives : {A V : Type 0} → (A → Type 0) → Outcome A × V → Type 0
  Gives Q (ok a, v) = Q a
  Gives Q (panic p, v) = ⊥

  finished-Gives :
      (n : ℕ) (run : Outcome (Option Error) × State W D)
      → Ensures (EndsWell n) run
      → Gives (λ res. res.err ≡ none → res.execution.status ≡ Status.completed) (finished run)
  finished-Gives n (ok none, s) h = λ e. h.1.0
  finished-Gives n (ok (some x), s) h = λ e. cc
  finished-Gives n (panic p, s) h = absurd h

  recover_found-Gives :
      (x : Execution D) (pointer : ℕ) (w : W) (o : Option (Definition W D)) (b : Bool)
      → IsResumable o x
      → Gives (Reports o b x) (recover_found r ctx x pointer w o b)
  recover_found-Gives x pointer w none b h = (refl, refl)
  recover_found-Gives x pointer w (some d) true h = (refl, refl)
  recover_found-Gives x pointer w (some d) false h =
      finished-Gives (length d.steps) (resume_one r d ctx x pointer w)
        (resume_ends r d ctx _ h.0 h.1 h.2 tt)

  joined-Gives :
      (x : Execution D) (l : List (Execution D)) (o : Outcome (RecoveryResult D)) (w : W)
      (pw : ℕ × W) (rest : Outcome (List (RecoveryResult D)) × W)
      → Gives (Reports (find_saga x.saga_name m.sagas) (skips m.policy x) x) (o, pw)
      → Gives (Matches l) rest
      → Gives (Matches (x ∷ l)) (joined o rest w)
  joined-Gives x l (ok res) w pw (ok results, w') h k = (h, k)
  joined-Gives x l (ok res) w pw (panic p, w') h k = absurd k
  joined-Gives x l (panic p) w pw rest h k = absurd h

  recover_loop-Gives :
      (l : List (Execution D)) (pointer : ℕ) (w : W)
      → All (λ x. IsResumable (find_saga x.saga_name m.sagas) x) l
      → Gives (Matches l) (recover_loop r m ctx l pointer w)
  unfolding recover_loop
  recover_loop-Gives [] pointer w h = tt
  recover_loop-Gives (x ∷ l) pointer w h =
      let one = recover_one r m ctx x pointer w in
      joined-Gives x l one.0 one.1.1 one.1 (recover_loop r m ctx l one.1.0 one.1.1)
        (recover_found-Gives x pointer w (find_saga x.saga_name m.sagas) (skips m.policy x) h.0)
        (recover_loop-Gives l one.1.0 one.1.1 h.1)

  sort-All : (P : Execution D → Type 0) (l : List (Execution D)) → All P l → All P (sort l)
  unfolding sort
  sort-All P [] h = tt
  sort-All P (x ∷ l) h = insert-All P x (sort l) h.0 (sort-All P l h.1)

  with_no_error-Gives :
      (l : List (Execution D)) (run : Outcome (List (RecoveryResult D)) × W)
      → Gives (Matches l) run
      → Gives (λ out. Matches l out.0 × (out.1 ≡ none)) (with_no_error run)
  with_no_error-Gives l (ok results, w) h = (h, refl)
  with_no_error-Gives l (panic p, w) h = absurd h

  -- If each listed execution can be resumed by the definition registered for it, or has none,
  -- `Recover` does not panic and returns no error, and its results are one for each listed execution,
  -- in the order of `sort`: an execution of an unknown saga is reported so and one that the policy
  -- skips is reported as skipped, both as they were; any other that has no error is completed.
  pub recover_lem :
      (pointer : ℕ) (l : List (Execution D)) (w : W)
      → All (λ x. IsResumable (find_saga x.saga_name m.sagas) x) l
      → Gives
          (λ out. Matches (sort l) out.0 × (out.1 ≡ none))
          (recover_listed r m ctx pointer (l, none) w)
  unfolding recover_listed
  recover_lem pointer l w h =
      with_no_error-Gives (sort l) (recover_loop r m ctx (sort l) pointer w)
        (recover_loop-Gives (sort l) pointer w (sort-All _ l h))
