-- ===== src/Idgen/Hex.antt =====
-- The identifiers of internal/idgen/idgen.go: how long they are, and when they agree.
use Prim.Native.String.{◌++◌, count}
use text.Mathlib.TextLemmas.{length-append, append_inj}
use go_orchestrator.Prelude.{
  ℕ, zero, suc, ◌*◌, ◌/◌, ◌%◌, ◌<◌, String, ◌≡◌, refl, sym, ap, ◌∙◌, Bool, true, false, not, ◌&&◌,
  ◌||◌, any, Option, none, some, subst, List, [], ◌∷◌, get_elem?, length, All, All-get,
  get_elem?-lt, str_eq, str_eq_refl, some_inj, if◌then◌else◌, arith,
}
use go_orchestrator.Errors.{Error}
use go_orchestrator.Idgen.{
  digits, or_empty, hex_digit, encode, Drawn, drawn, unreadable, zero_bytes, from_read, new,
}

digit-count : (n : ℕ) → n < 16 → count (hex_digit n) ≡ 1
unfolding hex_digit
digit-count n h =
    let (s, found) = get_elem?-lt digits n h in
    ap (λ o. count (or_empty o)) found
    ∙ All-get (λ s. count s ≡ 1) digits n s
        (
          refl,
          (
            refl,
            (
              refl,
              (
                refl,
                (
                  refl,
                  (
                    refl,
                    (
                      refl,
                      (refl, (refl, (refl, (refl, (refl, (refl, (refl, (refl, (refl, tt))))))))),
                    ),
                  ),
                ),
              ),
            ),
          ),
        )
        found

-- The index of a digit.
abbrev position : String → List String → ℕ
position s [] = 0
position s (d ∷ l) = let rest = position s l in if str_eq s d then 0 else suc rest

neither : (a b : Bool) → (a || b) ≡ false → (a ≡ false) × (b ≡ false)
neither a b h = ground arith

-- The first text is not among the others, and so on.
abbrev apart : List String → Bool
apart [] = true
apart (d ∷ l) = not (any (λ s. str_eq s d) l) && apart l

both : (a b : Bool) → (not a && b) ≡ true → (a ≡ false) × (b ≡ true)
both a b h = ground arith

not_any :
    (p : String → Bool) (l : List String) (n : ℕ) (s : String)
    → any p l ≡ false
    → get_elem? l n ≡ some s
    → p s ≡ false
not_any p [] n s h found = cc
not_any p (d ∷ l) zero s h found = ap p (sym (some_inj found)) ∙ (neither (p d) (any p l) h).0
not_any p (d ∷ l) (suc n) s h found = not_any p l n s (neither (p d) (any p l) h).1 found

position-get_elem? :
    (l : List String) (n : ℕ) (s : String)
    → apart l ≡ true
    → get_elem? l n ≡ some s
    → position s l ≡ n
position-get_elem? [] n s h found = cc
position-get_elem? (d ∷ l) zero s h found = rw (← some_inj found) (rw (str_eq_refl d) refl)
position-get_elem? (d ∷ l) (suc n) s h found =
    let (a, b) = both (any (λ s. str_eq s d) l) (apart l) h in
    rw (not_any (λ s. str_eq s d) l n s a found) (ap suc (position-get_elem? l n s b found))

digit-position : (n : ℕ) → n < 16 → position (hex_digit n) digits ≡ n
unfolding hex_digit
digit-position n h =
    let (s, found) = get_elem?-lt digits n h in
    ap (λ o. position (or_empty o) digits) found ∙ position-get_elem? digits n s refl found

digit_inj : (m n : ℕ) → m < 16 → n < 16 → hex_digit m ≡ hex_digit n → m ≡ n
digit_inj m n h k e = sym (digit-position m h) ∙ ap (λ s. position s digits) e ∙ digit-position n k

drawn_inj : {s t : String} → drawn s ≡ drawn t → s ≡ t
drawn_inj h = cc

-- A byte.
abbrev pub IsByte : ℕ → Type 0
IsByte b = b < 256

high : (b : ℕ) → IsByte b → b / 16 < 16
high b h = omega arith

low : (b : ℕ) → b % 16 < 16
low b = omega arith

encode-count : (bytes : List ℕ) → All IsByte bytes → count (encode bytes) ≡ 2 * length bytes
unfolding encode
encode-count [] h = refl
encode-count (b ∷ bytes) h =
    length-append (hex_digit (b / 16)) (hex_digit (b % 16) ++ encode bytes)
    ∙ omega (
      arith,
      digit-count (b / 16) (high b h.0),
      length-append (hex_digit (b % 16)) (encode bytes),
      digit-count (b % 16) (low b),
      encode-count bytes h.1,
    )

encode_inj :
    (bytes bytes' : List ℕ)
    → All IsByte bytes
    → All IsByte bytes'
    → length bytes ≡ length bytes'
    → encode bytes ≡ encode bytes'
    → bytes ≡ bytes'
unfolding encode
encode_inj [] [] h h' l e = refl
encode_inj [] (b ∷ bytes) h h' l e = absurd (omega (arith, l))
encode_inj (b ∷ bytes) [] h h' l e = absurd (omega (arith, l))
encode_inj (b ∷ bytes) (c ∷ bytes') h h' l e =
    let p =
      append_inj {s₁ = hex_digit (b / 16)} {s₂ = hex_digit (c / 16)} e
        (digit-count (b / 16) (high b h.0) ∙ sym (digit-count (c / 16) (high c h'.0))) in
    let q =
      append_inj {s₁ = hex_digit (b % 16)} {s₂ = hex_digit (c % 16)} p.1
        (digit-count (b % 16) (low b) ∙ sym (digit-count (c % 16) (low c))) in
    let same : b ≡ c = omega (
      arith,
      digit_inj (b / 16) (c / 16) (high b h.0) (high c h'.0) p.0,
      digit_inj (b % 16) (c % 16) (low b) (low c) q.0,
    ) in
    rw same (ap (λ l. c ∷ l) (encode_inj bytes bytes' h.1 h'.1 (omega (arith, l)) q.1))

-- The bytes that `rand.Read` has filled a slice with: as many as there were, each a byte.
abbrev pub Fills : List ℕ → List ℕ → Type 0
Fills buffer bytes = (length bytes ≡ length buffer) × All IsByte bytes

module _ {W : Type 0} (read : List ℕ → W → (List ℕ × Option Error) × W) where
  -- What a result of `New` says of the read that it made.
  abbrev pub Draws : W → Drawn × W → Type 0
  Draws w (unreadable e, w') = (read zero_bytes w).0.1 ≡ some e
  Draws w (drawn id, w') =
      ((read zero_bytes w).0.1 ≡ none)
      × (count id ≡ 32)
      × ((v : W) → (new read v).0 ≡ drawn id → (read zero_bytes v).0.0 ≡ (read zero_bytes w).0.0)

  from_read-inj :
      (b c : List ℕ) (e : Option Error)
      → Fills zero_bytes b
      → Fills zero_bytes c
      → from_read (c, e) ≡ drawn (encode b)
      → c ≡ b
  from_read-inj b c none f g h = encode_inj c b g.1 f.1 (g.0 ∙ sym f.0) (drawn_inj h)
  from_read-inj b c (some e) f g h = cc

  -- Let the source of random bytes fill any slice that it is given with bytes. `New` panics exactly if
  -- the source gives an error, with that error, and else it gives an identifier of 32 characters. Two
  -- calls of `New` give the same identifier only if the source gave both the same bytes.
  pub new_lem :
      ((buffer : List ℕ) (w : W) → Fills buffer (read buffer w).0.0)
      → (w : W) → Draws w (new read w)
  unfolding new
  new_lem fills w = by (read zero_bytes w).0 refl
    where
      by :
          (r : List ℕ × Option Error)
          → (read zero_bytes w).0 ≡ r
          → Draws w (from_read r, (read zero_bytes w).1)
      by (b, some e) p = ap (λ (r : List ℕ × Option Error). r.1) p
      by (b, none) p =
          let same : (read zero_bytes w).0.0 ≡ b = ap (λ (r : List ℕ × Option Error). r.0) p in
          let f : Fills zero_bytes b = subst (Fills zero_bytes) same (fills zero_bytes w) in
          (
            ap (λ (r : List ℕ × Option Error). r.1) p,
            omega (arith, encode-count b f.1, f.0),
            λ v e.
                from_read-inj b (read zero_bytes v).0.0 (read zero_bytes v).0.1 f
                  (fills zero_bytes v) e
                ∙ sym same,
          )
