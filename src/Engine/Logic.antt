-- ===== src/Engine/Logic.antt =====
-- Rules for what a function of the engine ensures: that it does not panic, that every execution it
-- saves has a sound shape, and what holds of its result and of the state after it.
use go_orchestrator.Prelude.{
  ℕ, ◌≡◌, ◌≢◌, refl, ap, ◌⊎◌, inl, inr, Option, none, some, List, ◌∷◌, All, Bool, true, false,
  if◌then◌else◌,
}
use go_orchestrator.Status.{Status, is_terminal}
use go_orchestrator.Errors.{Error}
use go_orchestrator.Engine.Monad.{
  M, State, Outcome, ok, panic, Call, saved, leased, after, unless_error, ◌>>=◌, pure,
}
use go_orchestrator.Engine.Shapes.{Shape, shape, IsSound}

module _ {W D : Type 0} where
  abbrev pub Ensures : {A : Type 0} → (A → State W D → Type 0) → Outcome A × State W D → Type 0
  Ensures Q (ok a, s) = Q a s
  Ensures Q (panic p, s) = ⊥

  pub after-Ensures :
      {A B : Type 0} (P : A → State W D → Type 0) (Q : B → State W D → Type 0)
      (r : Outcome A × State W D) (f : A → M W D B)
      → Ensures P r
      → ((a : A) (s : State W D) → P a s → Ensures Q (f a s))
      → Ensures Q (after r f)
  after-Ensures P Q (ok a, s) f p h = h a s p
  after-Ensures P Q (panic x, s) f p h = absurd p

module _ {D : Type 0} where
  -- A saved execution has a sound shape.
  abbrev pub IsSafe : ℕ → Call D → Type 0
  IsSafe n (saved e r) = IsSound n (shape e)
  IsSafe n _ = Unit

  -- The newest call is a save or a renewal of the lease that failed with this error.
  abbrev pub IsBroken : Error → List (Call D) → Type 0
  IsBroken e (saved x (some e') ∷ calls) = e' ≡ e
  IsBroken e (leased x (some e') ∷ calls) = e' ≡ e
  IsBroken e _ = ⊥

abbrev pub Post : Type 0 → Type 0 → Type 0 → Type 1
Post W D A = A → State W D → Type 0

module _ {W D : Type 0} where
  -- From a state of a given shape in which all saves were sound, `m` does not panic, all saves are
  -- sound afterwards, and `Q` holds.
  pub record Meets {A : Type 0} (n : ℕ) (v : Shape) (m : M W D A) (Q : Post W D A) : Type 0 where
    pub apply :
        (s : State W D)
        → shape s.exec ≡ v
        → All (IsSafe n) s.calls
        → Ensures (λ a s'. All (IsSafe n) s'.calls × Q a s') (m s)

  -- The shape is this one.
  abbrev pub At : {A : Type 0} → Shape → A → State W D → Type 0
  At v a s = shape s.exec ≡ v

  -- A function that returns an error: with none, the shape is this one; an error is that of the
  -- newest call.
  abbrev pub Then : Shape → Option Error → State W D → Type 0
  Then v none s = shape s.exec ≡ v
  Then v (some e) s = IsBroken e s.calls

  -- How a run ends. With no error the execution is completed. With an error it is in another terminal
  -- status, unless the error is that of the newest call, a save or a renewal of the lease. In a
  -- terminal status its shape is sound.
  abbrev pub Ended : ℕ → Option Error → State W D → Type 0
  Ended n none s = (s.exec.status ≡ Status.completed) × IsSound n (shape s.exec)
  Ended n (some e) s =
      ((is_terminal s.exec.status ≡ true)
        × (s.exec.status ≢ Status.completed)
        × IsSound n (shape s.exec))
      ⊎ IsBroken e s.calls

  pub bind-Meets :
      {A B : Type 0} (n : ℕ) (v w : Shape) (m : M W D A) (f : A → M W D B) (Q : Post W D B)
      → Meets n v m (At w)
      → ((a : A) → Meets n w (f a) Q)
      → Meets n v (m >>= f) Q
  bind-Meets n v w m f Q p h = record {
    apply =
        λ s e safe. after-Ensures _ _ (m s) f (p.apply s e safe) (λ a s' q. (h a).apply s' q.1 q.0);
  }

  pub pure-Meets :
      {A : Type 0} (n : ℕ) (v : Shape) (a : A) → Meets n v (pure {W = W} {D = D} a) (At v)
  pure-Meets n v a = record { apply = λ s e safe. (safe, e) }

  -- What a broken call makes of the rest, which is not run.
  abbrev pub Passes : Post W D (Option Error) → Type 0
  Passes Q = (e : Error) (s : State W D) → IsBroken e s.calls → Q (some e) s

  pub try-Meets :
      (n : ℕ) (v w : Shape) (m rest : M W D (Option Error)) (Q : Post W D (Option Error))
      → Passes Q
      → Meets n v m (Then w)
      → Meets n w rest Q
      → Meets n v (m >>= λ e. unless_error e rest) Q
  try-Meets n v w m rest Q pass p h = record {
    apply = λ s e safe. after-Ensures _ _ (m s) (λ r. unless_error r rest) (p.apply s e safe) cases;
  }
    where
      cases :
          (r : Option Error) (s' : State W D)
          → All (IsSafe n) s'.calls × Then w r s'
          → Ensures (λ a t. All (IsSafe n) t.calls × Q a t) (unless_error r rest s')
      cases none s' q = h.apply s' q.1 q.0
      cases (some x) s' q = (q.0, pass x s' q.1)

  pub if-Meets :
      {A : Type 0} (n : ℕ) (v : Shape) (b : Bool) (x y : M W D A) (Q : Post W D A)
      → (b ≡ true → Meets n v x Q)
      → (b ≡ false → Meets n v y Q)
      → Meets n v (if b then x else y) Q
  if-Meets n v true x y Q p q = p refl
  if-Meets n v false x y Q p q = q refl

  -- The same two rules where only a property of the shape in between is known.
  pub bind_some-Meets :
      {A B : Type 0} (n : ℕ) (v : Shape) (m : M W D A) (f : A → M W D B) (G : Shape → Type 0)
      (Q : Post W D B)
      → Meets n v m (λ a s. G (shape s.exec))
      → ((a : A) (w : Shape) → G w → Meets n w (f a) Q)
      → Meets n v (m >>= f) Q
  bind_some-Meets n v m f G Q p h = record {
    apply = λ s e safe.
        after-Ensures _ _ (m s) f (p.apply s e safe)
          (λ a t q. (h a (shape t.exec) q.1).apply t refl q.0);
  }

  abbrev pub Finds : (Shape → Type 0) → Option Error → State W D → Type 0
  Finds G none s = G (shape s.exec)
  Finds G (some e) s = IsBroken e s.calls

  pub try_some-Meets :
      (n : ℕ) (v : Shape) (m rest : M W D (Option Error)) (G : Shape → Type 0)
      (Q : Post W D (Option Error))
      → Passes Q
      → Meets n v m (Finds G)
      → ((w : Shape) → G w → Meets n w rest Q)
      → Meets n v (m >>= λ e. unless_error e rest) Q
  try_some-Meets n v m rest G Q pass p h = record {
    apply = λ s e safe. after-Ensures _ _ (m s) (λ r. unless_error r rest) (p.apply s e safe) cases;
  }
    where
      cases :
          (r : Option Error) (t : State W D)
          → All (IsSafe n) t.calls × Finds G r t
          → Ensures (λ a u. All (IsSafe n) u.calls × Q a u) (unless_error r rest t)
      cases none t q = (h (shape t.exec) q.1).apply t refl q.0
      cases (some x) t q = (q.0, pass x t q.1)

  -- A weaker postcondition.
  pub weaken-Meets :
      {A : Type 0} (n : ℕ) (v : Shape) (m : M W D A) (P Q : Post W D A)
      → ((a : A) (s : State W D) → P a s → Q a s)
      → Meets n v m P
      → Meets n v m Q
  weaken-Meets {A = A} n v m P Q h p = record { apply = λ s e safe. keep (m s) (p.apply s e safe) }
    where
      keep :
          (r : Outcome A × State W D)
          → Ensures (λ a t. All (IsSafe n) t.calls × P a t) r
          → Ensures (λ a t. All (IsSafe n) t.calls × Q a t) r
      keep (ok a, t) q = (q.0, h a t q.1)
      keep (panic x, t) q = q

  -- A last transition to a terminal status other than `completed`, and then an error.
  pub end-Meets :
      (n : ℕ) (v w : Shape) (m : M W D (Option Error)) (original : Error)
      → is_terminal w.0 ≡ true
      → w.0 ≢ Status.completed
      → IsSound n w
      → Meets n v m (Then w)
      → Meets n v (m >>= λ e. unless_error e (pure (some original))) (Ended n)
  end-Meets n v w m original t c sound p =
      try-Meets n v w m (pure (some original)) (Ended n) (λ e s b. inr b) p
        (record {
          apply = λ s e safe.
              let status : s.exec.status ≡ w.0 = ap (λ (u : Shape). u.0) e in
              (safe, inl (rw status t, rw status c, rw e sound));
        })
