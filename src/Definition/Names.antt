-- ===== src/Definition/Names.antt =====
-- What step.go and definition.go make sure of: a saga put together by AddStep has steps with names
-- of their own and with actions.
use mathlib.Core.Bool.{true≢false}
use mathlib.Core.List.{reverse-cons, map-append, append-nil, append_assoc}
use go_orchestrator.Prelude.{
  String, ◌≡◌, refl, sym, ap, subst, ◌∙◌, Bool, true, false, not, List, [], ◌∷◌, ◌++◌, map, reverse,
  All, any, is_some, str_eq, if◌then◌else◌,
}
use go_orchestrator.Definition.{
  StepDefinition, Definition, BuildPanic, Built, built, panicked, is_blank, add_step, add_steps,
  and_then,
}

-- No text comes twice.
abbrev pub Unique : List String → Type 0
Unique [] = Unit
Unique (n ∷ l) = (any (str_eq n) l ≡ false) × Unique l

-- Every step has an action, as `AddStep` makes sure.
abbrev pub HaveActions : {W D : Type 0} → List (StepDefinition W D) → Type 0
HaveActions = All (λ step. is_some step.action ≡ true)

module _ {A : Type 0} (P : A → Type 0) where
  All-append : (l l' : List A) → All P l → All P l' → All P (l ++ l')
  All-append [] l' h h' = h'
  All-append (x ∷ l) l' h h' = (h.0, All-append l l' h.1 h')

guards :
    {A : Type 0} (a b c e : Bool) (p q r t : BuildPanic) (x y : A)
    → (if a
        then panicked p
        else if b
        then panicked q
        else if c
        then panicked r
        else if not e
        then panicked t
        else built x)
      ≡ built y
    → (a ≡ false) × (b ≡ false) × (c ≡ false) × (e ≡ true) × (x ≡ y)
guards true b c e p q r t x y h = cc
guards false true c e p q r t x y h = cc
guards false false true e p q r t x y h = cc
guards false false false true p q r t x y h = (refl, refl, refl, refl, cc)
guards false false false false p q r t x y h = cc

built_inj : {A : Type 0} {x y : A} → built x ≡ built y → x ≡ y
built_inj h = cc

and_then-built :
    {A B : Type 0} (r : Built A) (f : A → Built B) (y : B)
    → and_then r f ≡ built y
    → (x : A) × (r ≡ built x) × (f x ≡ built y)
and_then-built (built x) f y h = (x, refl, h)
and_then-built (panicked p) f y h = cc

module _ {W D : Type 0} where
  abbrev name_of : StepDefinition W D → String
  name_of s = s.name

  -- The set of a definition lists the names of its steps, each once and none blank, and every step
  -- has an action.
  pub record IsNamed (d : Definition W D) : Type 0 where
    pub unique : Unique d.step_set
    pub listed : map name_of d.steps ≡ reverse d.step_set
    pub named : All (λ (s : StepDefinition W D). is_blank s.name ≡ false) d.steps
    pub acts : HaveActions d.steps

  -- The conditions of `add_step`, in the order of its tests, and its result.
  abbrev Passed : StepDefinition W D → Definition W D → Definition W D → Type 0
  Passed s d d' =
      (d.frozen ≡ false)
      × (is_blank s.name ≡ false)
      × (any (str_eq s.name) d.step_set ≡ false)
      × (is_some s.action ≡ true)
      × (record d { step_set = s.name ∷ d.step_set; steps = d.steps ++ (s ∷ []) } ≡ d')

  add_step-Passed :
      (s : StepDefinition W D) (d d' : Definition W D) → add_step s d ≡ built d' → Passed s d d'
  unfolding add_step
  add_step-Passed s d d' h =
      guards d.frozen (is_blank s.name) (any (str_eq s.name) d.step_set) (is_some s.action) _ _ _ _
        _ d' h

  grown-IsNamed :
      (s : StepDefinition W D) (d : Definition W D)
      → IsNamed d
      → is_blank s.name ≡ false
      → any (str_eq s.name) d.step_set ≡ false
      → is_some s.action ≡ true
      → IsNamed (record d { step_set = s.name ∷ d.step_set; steps = d.steps ++ (s ∷ []) })
  grown-IsNamed s d n filled new_name can_act = record {
    unique = (new_name, n.unique);
    listed =
        map-append name_of d.steps (s ∷ [])
        ∙ ap (λ l. l ++ (s.name ∷ [])) n.listed
        ∙ sym (reverse-cons s.name d.step_set);
    named =
        All-append (λ (s : StepDefinition W D). is_blank s.name ≡ false) d.steps (s ∷ []) n.named
          (filled, tt);
    acts =
        All-append (λ (s : StepDefinition W D). is_some s.action ≡ true) d.steps (s ∷ []) n.acts
          (can_act, tt);
  }

  add_step-IsNamed :
      (s : StepDefinition W D) (d d' : Definition W D)
      → IsNamed d
      → add_step s d ≡ built d'
      → IsNamed d' × (d'.steps ≡ d.steps ++ (s ∷ []))
  add_step-IsNamed s d d' n h =
      let p = add_step-Passed s d d' h in
      (
        subst IsNamed p.4 (grown-IsNamed s d n p.1 p.2 p.3),
        sym (ap (λ (d : Definition W D). d.steps) p.4),
      )

  -- A chain of `AddStep` calls that does not panic adds the steps in order, and keeps the names
  -- distinct and not blank and every action there. On a frozen saga there is no such chain, save the
  -- empty one.
  pub add_steps_lem :
      (l : List (StepDefinition W D)) (d d' : Definition W D)
      → IsNamed d
      → add_steps l d ≡ built d'
      → IsNamed d' × (d'.steps ≡ d.steps ++ l) × (d.frozen ≡ true → l ≡ [])
  add_steps_lem [] d d' n h =
      let e : d ≡ d' = built_inj h in
      (
        subst IsNamed e n,
        sym (ap (λ (d : Definition W D). d.steps) e) ∙ sym (append-nil d.steps),
        λ p. refl,
      )
  add_steps_lem (s ∷ l) d d' n h =
      let (d1, q, r) = and_then-built (add_step s d) (add_steps l) d' h in
      let (n1, e1) = add_step-IsNamed s d d1 n q in
      let (n2, e2, f2) = add_steps_lem l d1 d' n1 r in
      (
        n2,
        e2 ∙ ap (λ k. k ++ l) e1 ∙ append_assoc d.steps (s ∷ []) l,
        λ p. absurd (true≢false (sym p ∙ (add_step-Passed s d d1 q).0)),
      )
