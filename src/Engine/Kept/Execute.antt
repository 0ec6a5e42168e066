-- ===== src/Engine/Kept/Execute.antt =====
-- What Execute of execute.go keeps from its first save on, and runs whose world is of no interest.
use go_orchestrator.Prelude.{ℕ, String, refl, Option, none, some, List, [], ◌∷◌, All}
use go_orchestrator.Context.{Context}
use go_orchestrator.Interfaces.{Runtime, Locker}
use go_orchestrator.Definition.{StepDefinition, Definition, freeze}
use go_orchestrator.Engine.Monad.{State, saved}
use go_orchestrator.Engine.Persist.{save_error}
use go_orchestrator.Engine.Resume.{run_state, resume, start, initial, execute, fresh}
use go_orchestrator.Engine.Kept.{
  identity, OnSome, IsStepApart, IsApart, IsKept, Good, unless_error-Keeps,
}
use go_orchestrator.Engine.Kept.Resume.{resume-Keeps}

-- Any change of the world is allowed.
abbrev pub Free : {W : Type 0} → W → W → Type 0
Free w w' = Unit

whatever : {A : Type 0} (P : A → Type 0) (o : Option A) → ((a : A) → P a) → OnSome P o
whatever P none h = tt
whatever P (some a) h = h a

module _ {W D : Type 0} where
  steps-Free : (l : List (StepDefinition W D)) → All (IsStepApart Free) l
  steps-Free [] = tt
  steps-Free (x ∷ l) = (
    record {
      action = whatever _ x.action (λ f ctx a w. tt);
      compensate = whatever _ x.compensate (λ f ctx a w. tt);
      retry_policy = whatever _ x.retry_policy (λ p n w. tt);
    },
    steps-Free l,
  )

  pub IsApart-Free :
      (r : Runtime W) (d : Definition W D) (o : Option (Locker W)) → IsApart Free r d o
  IsApart-Free r d o = record {
    tick = λ w. tt;
    sleep = λ ctx n w. tt;
    publisher = whatever _ d.publisher (λ p ctx ev w. tt);
    logger = whatever _ d.logger (λ l ctx b m a w. tt);
    counters = whatever _ d.metrics (λ m n l w. tt);
    durations = whatever _ d.metrics (λ m n t l w. tt);
    starts = whatever _ d.tracer (λ t ctx n w. tt);
    ends = whatever _ d.tracer (λ t ctx n w. tt);
    releases = whatever _ o (λ l ctx id owner w. tt);
    delays = λ n w. tt;
    steps = steps-Free d.steps;
  }

module _ {W D : Type 0} (r : Runtime W) (d : Definition W D) (Same : W → W → Type 0)
    (Holds : State W D → Type 0) where
  -- The rule for `Execute`, by what holds after its first save.
  pub execute-Good :
      (ctx : Context) (input : Option D) (pointer : ℕ) (w : W)
      → let d' = freeze d in
        let s = initial r d' input pointer w in
        let v = identity s.exec in
        ((w : W) → Same w (r.new_id w).1)
        → ((owner : String) → IsKept (run_state r d' d'.store.locker owner) v Same Holds)
        → Holds (record s {
          world = (d'.store.save ctx s.exec s.world).1;
          calls =
              saved s.exec (save_error r.format s.exec.id (d'.store.save ctx s.exec s.world).0)
              ∷ [];
        })
        → Good v Holds (execute r d ctx input pointer w).1.1
  unfolding execute start
  execute-Good ctx input pointer w fresh k h =
      let d' = freeze d in
      let s = initial r d' input pointer w in
      let (e, w') = d'.store.save ctx s.exec s.world in
      let e' = save_error r.format s.exec.id e in
      (unless_error-Keeps (identity s.exec) Holds e' (resume r d' ctx)
          (resume-Keeps r d' (identity s.exec) Same Holds ctx fresh k)).apply
        (record s { world = w'; calls = saved s.exec e' ∷ [] }) (refl, h)
