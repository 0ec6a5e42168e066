-- ===== src/Idgen.antt =====
-- internal/idgen/idgen.go: identifiers. `rand.Read` of crypto/rand is given, as a function that fills a
-- slice; `hex.EncodeToString` of encoding/hex writes each byte as two digits.
pub mod Hex
use Prim.Native.String.{◌++◌}
use go_orchestrator.Prelude.{ℕ, ◌/◌, ◌%◌, String, Option, none, some, List, [], ◌∷◌, get_elem?}
use go_orchestrator.Errors.{Error}

abbrev pub digits : List String
digits =
    "0" ∷ "1" ∷ "2" ∷ "3" ∷ "4" ∷ "5" ∷ "6" ∷ "7" ∷ "8" ∷ "9" ∷ "a" ∷ "b" ∷ "c" ∷ "d" ∷ "e" ∷ "f"
    ∷ []

abbrev pub or_empty : Option String → String
or_empty none = ""
or_empty (some s) = s

unfoldable pub hex_digit : ℕ → String
hex_digit n = or_empty (get_elem? digits n)

-- `hex.EncodeToString`.
unfoldable pub encode : List ℕ → String
unfolding hex_digit
encode [] = ""
encode (b ∷ bytes) = hex_digit (b / 16) ++ (hex_digit (b % 16) ++ encode bytes)

-- What `New` does: an identifier, or the panic on an error of the source of random bytes.
pub data Drawn : Type 0 where
  drawn : String → Drawn
  unreadable : Error → Drawn

-- `var b [16]byte`.
abbrev pub zero_bytes : List ℕ
zero_bytes = 0 ∷ 0 ∷ 0 ∷ 0 ∷ 0 ∷ 0 ∷ 0 ∷ 0 ∷ 0 ∷ 0 ∷ 0 ∷ 0 ∷ 0 ∷ 0 ∷ 0 ∷ 0 ∷ []

-- The test of the error of `rand.Read(b[:])`, and what is made of the bytes it has filled in.
abbrev pub from_read : List ℕ × Option Error → Drawn
from_read (b, some e) = unreadable e
from_read (b, none) = drawn (encode b)

-- `New`, with `rand.Read`.
unfoldable pub new : {W : Type 0} → (List ℕ → W → (List ℕ × Option Error) × W) → W → Drawn × W
new read w = let (r, w') = read zero_bytes w in (from_read r, w')
