-- ===== src/Text/Hex.antt =====
-- `hex.EncodeToString` and `hex.DecodeString`.
pub mod RoundTrip
use csci1951l_cryptocurrency.Prelude.{
  ℕ, ◌+◌, ◌-◌, ◌*◌, ◌/◌, ◌%◌, List, [], ◌∷◌, ◌&&◌, Bool, true, false, Option, none, some, ltb, leb,
  if◌then◌else◌,
}

pub digit : ℕ → ℕ
digit n = if ltb n 10 then b'0' + n else b'a' + (n - 10)

unfoldable pub encode_to_string : List ℕ → List ℕ
unfolding digit
encode_to_string [] = []
encode_to_string (b ∷ bs) = digit (b / 16) ∷ digit (b % 16) ∷ encode_to_string bs

from_hex_char : ℕ → Option ℕ
from_hex_char c =
    if leb b'0' c && leb c b'9'
    then some (c - b'0')
    else if leb b'a' c && leb c b'f'
    then some (c - b'a' + 10)
    else if leb b'A' c && leb c b'F'
    then some (c - b'A' + 10)
    else none

-- A decoded byte before the result of the rest, or the failure at this byte.
put_byte : Option ℕ → Option ℕ → List ℕ × Bool → List ℕ × Bool
put_byte (some h) (some l) (bs, done) = ((h * 16 + l) ∷ bs, done)
put_byte _ _ r = ([], false)

-- The bytes that are decoded before the first error, and whether there was none.
unfoldable pub decode_string : List ℕ → List ℕ × Bool
unfolding from_hex_char put_byte
decode_string [] = ([], true)
decode_string (c ∷ []) = ([], false)
decode_string (c ∷ d ∷ s) = put_byte (from_hex_char c) (from_hex_char d) (decode_string s)

-- The decoded bytes where the code returns on an error.
unfoldable pub decoded : List ℕ → Option (List ℕ)
decoded s = let (bs, done) = decode_string s in if done then some bs else none
