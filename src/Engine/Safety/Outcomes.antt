-- ===== src/Engine/Safety/Outcomes.antt =====
-- The safety of what resumeRunning of execute.go does after a step has run.
use go_orchestrator.Prelude.{
  ℕ, suc, ◌<◌, ◌≡◌, refl, ◌∙◌, inl, inr, true, Option, none, some, arith, get_elem?, set, set_same,
  length, length-set,
}
use go_orchestrator.Status.{Status, StepStatus, can_transition_step_status}
use go_orchestrator.Errors.{Error, error_text}
use go_orchestrator.Context.{Context}
use go_orchestrator.Engine.Monad.{M, Run, ◌>>=◌, ◌>>◌, put_step, unless_error}
use go_orchestrator.Engine.Persist.{transition_step}
use go_orchestrator.Engine.Compensate.{abort}
use go_orchestrator.Engine.Running.{set_current, after_step}
use go_orchestrator.Engine.Shapes.{
  Shape, IsSound, Middle, Front-Middle, Middle-get, Middle-set, Middle-succeeded, Middle-Forward,
  is_edge,
}
use go_orchestrator.Engine.Logic.{Meets, Then, bind-Meets, try-Meets, Ended}
use go_orchestrator.Engine.Safety.Persist.{transition_step-Meets, get_step-Meets, put_step-Meets}
use go_orchestrator.Engine.Safety.Undo.{current-Meets}
use go_orchestrator.Engine.Safety.Stops.{Ready, Stopped, Middle-Stopped}
use go_orchestrator.Engine.Safety.Abort.{abort-Meets}

-- A forward run that goes on at a step, with the steps that are left.
pub record IsGoing (n i : ℕ) (v : Shape) : Type 0 where
  pub going : v.0 ≡ Status.running
  pub len : length v.1 ≡ n
  pub ready : Ready i v.1

pub Ready-Stopped : (n i : ℕ) (v : Shape) → IsGoing n i v → i < n → Stopped i v.1
Ready-Stopped n i v g h = stopped g.ready
  where
    stopped : Ready i v.1 → Stopped i v.1
    stopped (inl f) =
        Middle-Stopped i StepStatus.pending v.1 refl (Front-Middle i v.1 f (omega (arith, g.len)))
    stopped (inr m) = Middle-Stopped i StepStatus.running v.1 refl m

-- A run that is at a step, which has a given status.
pub record IsInside (n i : ℕ) (st : StepStatus) (v : Shape) : Type 0 where
  pub inside : v.0 ≡ Status.running
  pub len : length v.1 ≡ n
  pub middle : Middle i st v.1

Middle-IsSound :
    (n i : ℕ) (st : StepStatus) (v : Shape)
    → v.0 ≡ Status.running
    → length v.1 ≡ n
    → is_edge st ≡ true
    → Middle i st v.1
    → IsSound n v
Middle-IsSound n i st v running len edge m = record {
  sized = len;
  fits = rw running (Middle-Forward i st v.1 edge m);
}

pub move_on :
    (n i : ℕ) (from to : StepStatus) (v : Shape)
    → IsInside n i from v
    → IsInside n i to (v.0, set v.1 i to)
move_on n i from to v m = record {
  inside = m.inside;
  len = length-set v.1 i to ∙ m.len;
  middle = Middle-set i from to v.1 m.middle;
}

-- What the rest of the loop has to do, from the next step on.
abbrev pub NextEnds : {W D : Type 0} → ℕ → ℕ → (Option D → M W D (Option Error)) → Type 0
NextEnds {D = D} n i next =
    (out : Option D) (w : Shape) → IsGoing n (suc i) w → Meets n w (next out) (Ended n)

module _ {W D : Type 0} (rs : Run W D) (ctx : Context) (n : ℕ)
    (sized : length rs.definition.steps ≡ n) where
  pub step_on-Meets :
      (i : ℕ) (from to : StepStatus) (v : Shape)
      → can_transition_step_status from to ≡ true
      → is_edge to ≡ true
      → IsInside n i from v
      → Meets n v (transition_step rs ctx i to) (Then (v.0, set v.1 i to))
  step_on-Meets i from to v allowed edge m =
      let m' = move_on n i from to v m in
      transition_step-Meets rs ctx i from to n v (Middle-get i from v.1 m.middle) allowed
        (Middle-IsSound n i to (v.0, set v.1 i to) m'.inside m'.len edge m'.middle)

  fail_step-Meets :
      (i : ℕ) (e : Error) (v : Shape)
      → IsInside n i StepStatus.running v
      → Meets n v
          (transition_step rs ctx i StepStatus.failed >>= λ x.
            unless_error x (set_current "" >> abort rs ctx i e))
          (Ended n)
  unfolding can_transition_step_status
  fail_step-Meets i e v m =
      try-Meets n v w (transition_step rs ctx i StepStatus.failed)
        (set_current "" >> abort rs ctx i e) (Ended n) (λ x s b. inr b)
        (step_on-Meets i StepStatus.running StepStatus.failed v refl refl m)
        (bind-Meets n w w (set_current "") (λ _. abort rs ctx i e) (Ended n)
          (current-Meets rs ctx n "" w)
          (λ _.
            abort-Meets rs ctx n sized i e w m'.inside m'.len
              (Middle-Stopped i StepStatus.failed w.1 refl m'.middle)))
    where
      w : Shape
      w = (v.0, set v.1 i StepStatus.failed)

      m' : IsInside n i StepStatus.failed w
      m' = move_on n i StepStatus.running StepStatus.failed v m

  pub after_step-Meets :
      (i : ℕ) (next : Option D → M W D (Option Error)) (r : Option D × Option Error) (v : Shape)
      → IsInside n i StepStatus.running v
      → NextEnds n i next
      → Meets n v (after_step rs ctx i next r) (Ended n)
  unfolding after_step can_transition_step_status
  after_step-Meets i next (out, some e) v m h =
      get_step-Meets i StepStatus.running n v _ (Ended n) found λ x here.
        bind-Meets n v v (put_step i (record x { error = error_text rs.runtime.format e })) _
          (Ended n)
          (rw (set_same v.1 i StepStatus.running found) at (
            put_step-Meets {W = W} i (record x { error = error_text rs.runtime.format e })
              StepStatus.running n v here))
          (λ _. fail_step-Meets i e v m)
    where
      found : get_elem? v.1 i ≡ some StepStatus.running
      found = Middle-get i StepStatus.running v.1 m.middle
  after_step-Meets i next (out, none) v m h =
      get_step-Meets i StepStatus.running n v _ (Ended n) found λ x here.
        bind-Meets n v v (put_step i (record x { output = out })) _ (Ended n)
          (rw (set_same v.1 i StepStatus.running found) at
            (put_step-Meets {W = W} i (record x { output = out }) StepStatus.running n v here))
          (λ _.
            try-Meets n v w (transition_step rs ctx i StepStatus.succeeded) (next out) (Ended n)
              (λ x s b. inr b)
              (step_on-Meets i StepStatus.running StepStatus.succeeded v refl refl m)
              (h out w (record {
                going = m'.inside;
                len = m'.len;
                ready = inl (Middle-succeeded i w.1 m'.middle);
              })))
    where
      found : get_elem? v.1 i ≡ some StepStatus.running
      found = Middle-get i StepStatus.running v.1 m.middle

      w : Shape
      w = (v.0, set v.1 i StepStatus.succeeded)

      m' : IsInside n i StepStatus.succeeded w
      m' = move_on n i StepStatus.running StepStatus.succeeded v m
