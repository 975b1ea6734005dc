-- ===== src/Text.antt =====
-- Go strings as their bytes, and what the program takes of Go's `fmt`, `strings`, `strconv`,
-- `bytes` and `encoding/hex`.
pub mod Equality
pub mod Decimal
pub mod Hex
pub mod Split
use Prim.Native.Char.{code}
use Prim.Native.String.{String}
use csci1951l_cryptocurrency.Prelude.{ℕ, List, [], ◌∷◌, ◌++◌, Bool, true, false, ltb, if◌then◌else◌}

abbrev pub Bytes : Type 0
Bytes = List ℕ

-- The bytes of an ASCII literal.
abbrev pub codes : String → Bytes
codes String.[] = []
codes (String.◌∷◌ c s) = code c ∷ codes s

-- `strings.Join(parts, sep)`
unfoldable pub join : Bytes → List Bytes → Bytes
join sep [] = []
join sep (s ∷ []) = s
join sep (s ∷ t ∷ rest) = s ++ sep ++ join sep (t ∷ rest)

-- `bytes.Compare(a, b) == -1`: lexicographic, a proper prefix is less.
unfoldable pub is_less : Bytes → Bytes → Bool
is_less a [] = false
is_less [] (d ∷ b) = true
is_less (c ∷ a) (d ∷ b) =
    let rest = is_less a b in if ltb c d then true else if ltb d c then false else rest
