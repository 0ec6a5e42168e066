-- ===== src/Prelude/Texts.antt =====
-- The Boolean test for equal texts.
use Prim.Native.String.{String}
use text.Mathlib.TextEquality.{eq_iff}
use mathlib.Core.Path.{◌≡◌, refl, sym, subst, ◌∙◌}
use mathlib.Core.Logic.{◌≢◌, inl, inr}
use mathlib.Core.Bool.{true, false, true≢false}
use go_orchestrator.Prelude.Tests.{str_eq, Bool-cases}

pub str_eq→eq : (s t : String) → str_eq s t ≡ true → s ≡ t
str_eq→eq s t h = (eq_iff s t).0 h

pub str_eq_refl : (s : String) → str_eq s s ≡ true
str_eq_refl s = (eq_iff s s).1 refl

pub ne→str_eq : (s t : String) → s ≢ t → str_eq s t ≡ false
ne→str_eq s t h = elim (Bool-cases (str_eq s t)) [
  | inl p ↦ absurd (h (str_eq→eq s t p))
  | inr p ↦ p
]

pub differ : (s t : String) → str_eq s t ≡ false → t ≢ s
differ s t h e = absurd (true≢false (sym (str_eq_refl s) ∙ subst (λ u. str_eq s u ≡ false) e h))

pub str_eq→ne : (s t : String) → str_eq s t ≡ false → s ≢ t
str_eq→ne s t h e = differ s t h (sym e)
