-- ===== src/Engine/Safety/Execute.antt =====
-- How resume and Execute of execute.go end.
use go_orchestrator.Prelude.{
  ℕ, suc, arith, String, ◌≡◌, refl, ap, true, false, Option, none, some, List, [], ◌∷◌, ◌⊎◌, All,
  length, map, inr,
}
use go_orchestrator.Status.{is_terminal}
use go_orchestrator.Errors.{Error}
use go_orchestrator.Context.{Context}
use go_orchestrator.Interfaces.{Runtime, Locker}
use go_orchestrator.Definition.{StepDefinition, Definition, freeze}
use go_orchestrator.Definition.Names.{HaveActions}
use go_orchestrator.Engine.Monad.{Run, State, saved, leased, unless_error}
use go_orchestrator.Engine.Notify.{start_span, end_span}
use go_orchestrator.Engine.Persist.{lease, save_error}
use go_orchestrator.Engine.Resume.{
  run_spanned, run_timed, run_untimed, run_with_timeout, dispatch, release, run_leased, run_state,
  resume_with, resume, start, fresh, fresh_step, initial, execute,
}
use go_orchestrator.Engine.Shapes.{Shape, shape, statuses, IsSound, Untouched}
use go_orchestrator.Engine.Logic.{Ensures, after-Ensures, IsSafe, Meets, Then, Ended}
use go_orchestrator.Engine.Safety.Persist.{Quiet}
use go_orchestrator.Engine.Safety.Resume.{deferred-Ensures, Quiet-state, run_spanned-Meets}

module _ {W D : Type 0} where
  lease-Meets :
      (rs : Run W D) (ctx : Context) (what : String) (l : Locker W) (n : ℕ) (v : Shape)
      → Meets n v (lease rs ctx what l) (Then v)
  unfolding lease
  lease-Meets rs ctx what l n v = record { apply = λ s e safe. ground arith }

  pub release-Quiet :
      (rs : Run W D) (ctx : Context) (l : Locker W) (s : State W D)
      → Ensures (Quiet s) (release rs ctx l s)
  unfolding release
  release-Quiet rs ctx l s = ground arith

  -- The saves are sound, and the run has ended.
  abbrev pub EndsWell : ℕ → Option Error → State W D → Type 0
  EndsWell n e s = All (IsSafe n) s.calls × Ended n e s

module _ {W D : Type 0} (n : ℕ) (v : Shape) (live : is_terminal v.0 ≡ false)
    (sound : IsSound n v) where
  run_leased-Ensures :
      (rs : Run W D) (ctx : Context) (l : Locker W) (e : Option Error) (s : State W D)
      → length rs.definition.steps ≡ n
      → HaveActions rs.definition.steps
      → All (IsSafe n) s.calls × Then v e s
      → Ensures (EndsWell n) (run_leased rs ctx l e s)
  unfolding run_leased
  run_leased-Ensures rs ctx l (some x) s sized acts h = (h.0, inr h.1)
  run_leased-Ensures rs ctx l none s sized acts h =
      deferred-Ensures n (release rs ctx l) (run_spanned rs ctx s)
        (λ t. Quiet-state t (release rs ctx l t) (release-Quiet rs ctx l t))
        ((run_spanned-Meets rs n sized acts v live sound ctx).apply s h.1 h.0)

  resume_with-Ensures :
      (r : Runtime W) (d : Definition W D) (ctx : Context) (o : Option (Locker W)) (s : State W D)
      → length d.steps ≡ n
      → HaveActions d.steps
      → shape s.exec ≡ v
      → All (IsSafe n) s.calls
      → Ensures (EndsWell n) (resume_with r d ctx o s)
  unfolding resume_with
  resume_with-Ensures r d ctx none s sized acts e safe =
      (run_spanned-Meets (run_state r d none "") n sized acts v live sound ctx).apply s e safe
  resume_with-Ensures r d ctx (some l) s sized acts e safe =
      let s' : State W D = record s { world = (r.new_id s.world).1 } in
      let rs = run_state r d (some l) (r.new_id s.world).0 in
      let what : String = "saga: failed to acquire execution lock for " in
      after-Ensures (λ o t. All (IsSafe n) t.calls × Then v o t) (EndsWell n)
        (lease rs ctx what l s') (run_leased rs ctx l)
        ((lease-Meets rs ctx what l n v).apply s' e safe)
        (λ o t h. run_leased-Ensures rs ctx l o t sized acts h)

module _ {W D : Type 0} where
  -- Take an execution that is not in a terminal status, whose shape (its status with those of its
  -- steps) is sound for the definition, and a definition whose steps all have actions. Whatever the
  -- store, the locker, the actions and the clock do, `resume` returns without a panic, and every
  -- execution that it saves has a sound shape again. If it returns no error, the execution is
  -- completed, with a sound shape. If it returns an error, the execution is in another terminal
  -- status, with a sound shape, or the error is that of the newest call, a failed save, acquisition
  -- or renewal of the lease.
  pub resume_ends :
      (r : Runtime W) (d : Definition W D) (ctx : Context) (s : State W D)
      → HaveActions d.steps
      → IsSound (length d.steps) (shape s.exec)
      → is_terminal s.exec.status ≡ false
      → All (IsSafe (length d.steps)) s.calls
      → Ensures (EndsWell (length d.steps)) (resume r d ctx s)
  unfolding resume
  resume_ends r d ctx s acts sound live safe =
      resume_with-Ensures (length d.steps) (shape s.exec) live sound r d ctx d.store.locker s refl
        acts refl safe

  fresh-Untouched :
      (steps : List (StepDefinition W D)) → Untouched (statuses (map fresh_step steps))
  fresh-Untouched [] = tt
  fresh-Untouched (x ∷ steps) = (refl, fresh-Untouched steps)

  fresh-length :
      (steps : List (StepDefinition W D)) → length (statuses (map fresh_step steps)) ≡ length steps
  fresh-length [] = refl
  fresh-length (x ∷ steps) = ap suc (fresh-length steps)

  fresh-IsSound :
      (d : Definition W D) (id : String) (input : Option D) (at : ℕ)
      → IsSound (length d.steps) (shape (fresh d id input at))
  fresh-IsSound d id input at = record {
    sized = fresh-length d.steps;
    fits = fresh-Untouched d.steps;
  }

  saved-Then :
      (s : State W D) (e : Option Error) (w : W)
      → Then (shape s.exec) e (record s { world = w; calls = saved s.exec e ∷ s.calls })
  saved-Then s none w = refl
  saved-Then s (some e) w = refl

  started :
      (r : Runtime W) (d : Definition W D) (ctx : Context) (e : Option Error) (s : State W D)
      → HaveActions d.steps
      → IsSound (length d.steps) (shape s.exec)
      → is_terminal s.exec.status ≡ false
      → All (IsSafe (length d.steps)) s.calls
      → Then (shape s.exec) e s
      → Ensures (EndsWell (length d.steps)) (unless_error e (resume r d ctx) s)
  started r d ctx none s acts sound live safe h = resume_ends r d ctx s acts sound live safe
  started r d ctx (some e) s acts sound live safe h = (safe, inr h)

  start_ends :
      (r : Runtime W) (d : Definition W D) (ctx : Context) (s : State W D)
      → HaveActions d.steps
      → IsSound (length d.steps) (shape s.exec)
      → is_terminal s.exec.status ≡ false
      → All (IsSafe (length d.steps)) s.calls
      → Ensures (EndsWell (length d.steps)) (start r d ctx s)
  unfolding start
  start_ends r d ctx s acts sound live safe =
      let (result, w) = d.store.save ctx s.exec s.world in
      let e = save_error r.format s.exec.id result in
      started r d ctx e (record s { world = w; calls = saved s.exec e ∷ s.calls }) acts sound live
        (sound, safe) (saved-Then s e w)

  -- For a definition whose steps all have actions, `Execute` returns without a panic, whatever the
  -- store, the locker, the actions and the clock do, and every execution that it saves has a sound
  -- shape. If it returns no error, the execution is completed, and all its steps have succeeded. If
  -- it returns an error, the execution is in another terminal status, with a sound shape, or the
  -- error is that of the newest call, a failed save, acquisition or renewal of the lease.
  pub execute_ends :
      (r : Runtime W) (d : Definition W D) (ctx : Context) (input : Option D) (pointer : ℕ) (w : W)
      → HaveActions d.steps
      → Ensures (EndsWell (length d.steps)) (execute r d ctx input pointer w).1
  unfolding execute freeze
  execute_ends r d ctx input pointer w acts =
      start_ends r (freeze d) ctx (initial r (freeze d) input pointer w) acts
        (fresh-IsSound (freeze d) (r.new_id (r.tick w)).0 input (r.now (r.tick w))) refl tt

  -- `resume` leaves an execution in a terminal status as it is, and saves nothing and runs no action
  -- or compensation. It returns no error, unless the lease was asked for and not given.
  pub resume_terminal :
      (r : Runtime W) (d : Definition W D) (ctx : Context) (s : State W D)
      → is_terminal s.exec.status ≡ true
      → Ensures
          (λ e t.
            (t.exec ≡ s.exec)
            × ((t.calls ≡ s.calls) × (e ≡ none) ⊎ (t.calls ≡ leased s.exec.id e ∷ s.calls)))
          (resume r d ctx s)
  unfolding resume resume_with lease run_leased release run_spanned run_timed run_untimed
      run_with_timeout dispatch start_span end_span
  resume_terminal r d ctx s h = ground arith
