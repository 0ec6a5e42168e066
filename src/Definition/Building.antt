-- ===== src/Definition/Building.antt =====
-- Which chains of New and AddStep of definition.go panic.
use go_orchestrator.Prelude.{
  String, ◌≡◌, refl, sym, ap, subst, ◌∙◌, Bool, true, false, not, ◌&&◌, ◌||◌, none, some, List, [],
  ◌∷◌, ◌++◌, any, is_some, str_eq, if◌then◌else◌, Bool-cases, inl, inr, arith, str_eq→eq,
  str_eq_refl, ne→str_eq, str_eq→ne,
}
use go_orchestrator.Definition.{
  StepDefinition, Definition, BuildPanic, Built, built, panicked, and_then, is_blank, apply_options,
  new, add_step, add_steps,
}
use go_orchestrator.Definition.Options.{
  OptionCall, of_store, of_retry_policy, of_timeout, of_lock_ttl, of_event_publisher, of_logger,
  of_metrics, of_tracer, option_of, options_of, build,
}
use mathlib.Core.List.{append-nil, append_assoc}

-- The builder does not panic exactly if the test says so, and then what it builds has the property.
abbrev pub Decides : {A : Type 0} → Bool → (A → Type 0) → Built A → Type 0
Decides b P (built x) = (b ≡ true) × P x
Decides b P (panicked p) = b ≡ false

and_then-Decides :
    {A B : Type 0} (b c : Bool) (P : A → Type 0) (Q : B → Type 0) (r : Built A) (f : A → Built B)
    → Decides b P r
    → ((x : A) → P x → Decides c Q (f x))
    → Decides (b && c) Q (and_then r f)
and_then-Decides true c P Q (built x) f h k = k x h.1
and_then-Decides false c P Q (built x) f h k = cc
and_then-Decides true c P Q (panicked p) f h k = cc
and_then-Decides false c P Q (panicked p) f h k = refl

weaken-Decides :
    {A : Type 0} {b c : Bool} {P Q : A → Type 0} (r : Built A)
    → b ≡ c
    → ((x : A) → P x → Q x)
    → Decides b P r
    → Decides c Q r
weaken-Decides (built x) e k (t, h) = (sym e ∙ t, k x h)
weaken-Decides (panicked p) e k t = sym e ∙ t

if-Decides :
    {A : Type 0} (P : A → Type 0) (b : Bool) (p : BuildPanic) (x : A)
    → P x
    → Decides (not b) P (if b then panicked p else built x)
if-Decides P true p x h = refl
if-Decides P false p x h = (refl, h)

str_eq_sym : (s t : String) → str_eq s t ≡ str_eq t s
str_eq_sym s t = elim (Bool-cases (str_eq s t)) [
  | inl p ↦ p ∙ sym (subst (λ u. str_eq u s ≡ true) (str_eq→eq s t p) (str_eq_refl s))
  | inr p ↦ p ∙ sym (ne→str_eq t s (λ e. str_eq→ne s t p (sym e)))
]

swap : (a b c d : Bool) → ((a || b) || (c || d)) ≡ ((a || c) || (b || d))
swap a b c d = ground arith

gather :
    (b c e x y q : Bool)
    → ((b && not c && e) && (not (x || y) && q)) ≡ (not (c || y) && ((b && not x && e) && q))
gather b c e x y q = ground arith

module _ {W D : Type 0} where
  -- What the builders change besides the options.
  abbrev core : Definition W D → (String × List (StepDefinition W D)) × (List String × Bool)
  core d = ((d.name, d.steps), (d.step_set, d.frozen))

  abbrev LeavesCore : (Definition W D → Definition W D) → Type 0
  LeavesCore f = (d : Definition W D) → core (f d) ≡ core d

  abbrev pub is_given : OptionCall W D → Bool
  is_given (of_store o) = is_some o
  is_given (of_retry_policy o) = is_some o
  is_given (of_timeout t) = true
  is_given (of_lock_ttl t) = true
  is_given (of_event_publisher o) = is_some o
  is_given (of_logger o) = is_some o
  is_given (of_metrics o) = is_some o
  is_given (of_tracer o) = is_some o

  abbrev pub all_given : List (OptionCall W D) → Bool
  all_given [] = true
  all_given (c ∷ calls) = is_given c && all_given calls

  option_of-Decides : (c : OptionCall W D) → Decides (is_given c) LeavesCore (option_of c)
  option_of-Decides (of_store none) = refl
  option_of-Decides (of_store (some x)) = (refl, λ d. refl)
  option_of-Decides (of_retry_policy none) = refl
  option_of-Decides (of_retry_policy (some x)) = (refl, λ d. refl)
  option_of-Decides (of_timeout t) = (refl, λ d. refl)
  option_of-Decides (of_lock_ttl t) = (refl, λ d. refl)
  option_of-Decides (of_event_publisher none) = refl
  option_of-Decides (of_event_publisher (some x)) = (refl, λ d. refl)
  option_of-Decides (of_logger none) = refl
  option_of-Decides (of_logger (some x)) = (refl, λ d. refl)
  option_of-Decides (of_metrics none) = refl
  option_of-Decides (of_metrics (some x)) = (refl, λ d. refl)
  option_of-Decides (of_tracer none) = refl
  option_of-Decides (of_tracer (some x)) = (refl, λ d. refl)

  options_of-Decides :
      (calls : List (OptionCall W D))
      → Decides (all_given calls) (λ opts. LeavesCore (apply_options opts)) (options_of calls)
  options_of-Decides [] = (refl, λ d. refl)
  options_of-Decides (c ∷ calls) =
      and_then-Decides (is_given c) (all_given calls) LeavesCore
        (λ opts. LeavesCore (apply_options opts)) (option_of c) _ (option_of-Decides c)
        (λ opt left. one (all_given calls) opt left (options_of calls) (options_of-Decides calls))
    where
      one :
          (b : Bool) (opt : Definition W D → Definition W D)
          → LeavesCore opt
          → (r : Built (List (Definition W D → Definition W D)))
          → Decides b (λ opts. LeavesCore (apply_options opts)) r
          → Decides b
              (λ opts. LeavesCore (apply_options opts))
              (and_then r (λ opts. built (opt ∷ opts)))
      one b opt left (built opts) (t, h) = (t, λ d. h (opt d) ∙ left d)
      one b opt left (panicked p) h = h

  -- The tests of the chain of `AddStep` calls from a set of names on.
  abbrev passes : List String → List (StepDefinition W D) → Bool
  passes set [] = true
  passes set (s ∷ l) =
      (not (is_blank s.name) && not (any (str_eq s.name) set) && is_some s.action)
      && passes (s.name ∷ set) l

  abbrev Added : Definition W D → List (StepDefinition W D) → Definition W D → Type 0
  Added d l d' = (d'.name ≡ d.name) × (d'.steps ≡ d.steps ++ l) × (d'.frozen ≡ false)

  add_step-Decides :
      (s : StepDefinition W D) (d : Definition W D)
      → d.frozen ≡ false
      → Decides
          (not (is_blank s.name) && not (any (str_eq s.name) d.step_set) && is_some s.action)
          (λ d'. Added d (s ∷ []) d' × (d'.step_set ≡ s.name ∷ d.step_set))
          (add_step s d)
  unfolding add_step
  add_step-Decides s d unfrozen =
      tested _ d.frozen (is_blank s.name) (any (str_eq s.name) d.step_set) (is_some s.action) _ _ _
        _ (record d { step_set = s.name ∷ d.step_set; steps = d.steps ++ (s ∷ []) }) unfrozen
        ((refl, refl, unfrozen), refl)
    where
      tested :
          {A : Type 0} (P : A → Type 0) (a b c e : Bool) (p q r t : BuildPanic) (x : A)
          → a ≡ false
          → P x
          → Decides (not b && not c && e) P (
              if a
              then panicked p
              else if b
              then panicked q
              else if c
              then panicked r
              else if not e
              then panicked t
              else built x)
      tested P true b c e p q r t x h k = cc
      tested P false true c e p q r t x h k = refl
      tested P false false true e p q r t x h k = refl
      tested P false false false true p q r t x h k = (refl, k)
      tested P false false false false p q r t x h k = refl

  add_steps-Decides :
      (l : List (StepDefinition W D)) (d : Definition W D)
      → d.frozen ≡ false
      → Decides (passes d.step_set l) (Added d l) (add_steps l d)
  add_steps-Decides [] d unfrozen = (refl, (refl, sym (append-nil d.steps), unfrozen))
  add_steps-Decides (s ∷ l) d unfrozen =
      and_then-Decides _ (passes (s.name ∷ d.step_set) l) _ (Added d (s ∷ l)) (add_step s d)
        (add_steps l) (add_step-Decides s d unfrozen)
        (λ d1 h.
          weaken-Decides (add_steps l d1) (ap (λ set. passes set l) h.1)
            (λ d2 a.
              (a.0 ∙ h.0.0, a.1 ∙ ap (λ k. k ++ l) h.0.1 ∙ append_assoc d.steps (s ∷ []) l, a.2))
            (add_steps-Decides l d1 h.0.2))

  -- No two steps have one name, no name is blank, and every step has an action.
  abbrev pub are_fine : List (StepDefinition W D) → Bool
  are_fine [] = true
  are_fine (s ∷ l) =
      (not (is_blank s.name) && not (any (λ t. str_eq s.name t.name) l) && is_some s.action)
      && are_fine l

  abbrev taken : List String → List (StepDefinition W D) → Bool
  taken set l = any (λ t. any (str_eq t.name) set) l

  taken-nil : (l : List (StepDefinition W D)) → taken [] l ≡ false
  taken-nil [] = refl
  taken-nil (t ∷ l) = taken-nil l

  taken-cons :
      (n : String) (set : List String) (l : List (StepDefinition W D))
      → taken (n ∷ set) l ≡ (any (λ t. str_eq n t.name) l || taken set l)
  taken-cons n set [] = refl
  taken-cons n set (t ∷ l) =
      ap (λ b. (b || any (str_eq t.name) set) || taken (n ∷ set) l) (str_eq_sym t.name n)
      ∙ ap (λ b. (str_eq n t.name || any (str_eq t.name) set) || b) (taken-cons n set l)
      ∙ swap (str_eq n t.name) (any (str_eq t.name) set) (any (λ t. str_eq n t.name) l)
          (taken set l)

  passes_lem :
      (set : List String) (l : List (StepDefinition W D))
      → passes set l ≡ (not (taken set l) && are_fine l)
  passes_lem set [] = refl
  passes_lem set (s ∷ l) =
      ap (λ b. (not (is_blank s.name) && not (any (str_eq s.name) set) && is_some s.action) && b)
        (passes_lem (s.name ∷ set) l ∙ ap (λ b. not b && are_fine l) (taken-cons s.name set l))
      ∙ gather (not (is_blank s.name)) (any (str_eq s.name) set) (is_some s.action)
          (any (λ t. str_eq s.name t.name) l) (taken set l) (are_fine l)

  abbrev pub AsAsked : String → List (StepDefinition W D) → Definition W D → Type 0
  AsAsked name steps d = (d.name ≡ name) × (d.steps ≡ steps) × (d.frozen ≡ false)

  new-Decides :
      (name : String) (opts : List (Definition W D → Definition W D))
      → LeavesCore (apply_options opts)
      → Decides (not (is_blank name)) (λ d. core d ≡ ((name, []), ([], false))) (new name opts)
  unfolding new
  new-Decides name opts left = if-Decides _ (is_blank name) _ _ (left _)

  -- A chain of New and AddStep calls does not panic exactly if no option but a duration is nil, the
  -- name of the saga is not blank, and the steps have distinct names, none blank, and actions; the
  -- saga has then the name and the steps that were asked for, in order, and is not frozen.
  pub build_lem :
      (name : String) (calls : List (OptionCall W D)) (steps : List (StepDefinition W D))
      → Decides
          (all_given calls && (not (is_blank name) && are_fine steps))
          (AsAsked name steps)
          (build name calls steps)
  build_lem name calls steps =
      and_then-Decides (all_given calls) _ _ (AsAsked name steps) (options_of calls) _
        (options_of-Decides calls)
        (λ opts left.
          and_then-Decides (not (is_blank name)) (are_fine steps) _ (AsAsked name steps)
            (new name opts) (add_steps steps) (new-Decides name opts left) (added steps))
    where
      added :
          (l : List (StepDefinition W D)) (d : Definition W D)
          → core d ≡ ((name, []), ([], false))
          → Decides (are_fine l) (AsAsked name l) (add_steps l d)
      added l d e =
          weaken-Decides (add_steps l d)
            (ap (λ c. passes c.1.0 l) e
              ∙ passes_lem [] l
              ∙ ap (λ b. not b && are_fine l) (taken-nil l))
            (λ d' a. (a.0 ∙ ap (λ c. c.0.0) e, a.1 ∙ ap (λ c. c.0.1 ++ l) e, a.2))
            (add_steps-Decides l d (ap (λ c. c.1.1) e))
