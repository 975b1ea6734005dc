-- ===== src/Text/Hex/RoundTrip.antt =====
-- What was encoded is decoded again.
use csci1951l_cryptocurrency.Prelude.{
  ℕ, ◌+◌, ◌*◌, ◌/◌, ◌%◌, ◌<◌, List, [], ◌∷◌, true, some, ◌≡◌, ◌≢◌, refl, arith, All, length,
}
use csci1951l_cryptocurrency.Text.Hex.{
  digit, encode_to_string, from_hex_char, put_byte, decode_string, decoded,
}

from_hex_char-digit : (n : ℕ) → n < 16 → from_hex_char (digit n) ≡ some n
unfolding from_hex_char digit
from_hex_char-digit n h = ground arith

abbrev pub IsByte : ℕ → Type 0
IsByte b = b < 256

pub decode_string-encode :
    (bs : List ℕ) → All IsByte bs → decode_string (encode_to_string bs) ≡ (bs, true)
unfolding decode_string encode_to_string put_byte
decode_string-encode [] h = refl
decode_string-encode (b ∷ bs) h =
    let e : b / 16 * 16 + b % 16 ≡ b = omega arith in
    rw (
      from_hex_char-digit (b / 16) (omega arith),
      from_hex_char-digit (b % 16) (omega arith),
      decode_string-encode bs h.1,
      put_byte,
      e,
    )

pub decoded-encode : (bs : List ℕ) → All IsByte bs → decoded (encode_to_string bs) ≡ some bs
unfolding decoded
decoded-encode bs h = rw (decode_string-encode bs h)

pub length-encode : (bs : List ℕ) → length (encode_to_string bs) ≡ 2 * length bs
unfolding encode_to_string
length-encode [] = refl
length-encode (b ∷ bs) = omega (arith, length-encode bs)

-- A digit is no dash.
pub digit-ne : (n : ℕ) → digit n ≢ b'-'
unfolding digit
digit-ne n = ground arith
