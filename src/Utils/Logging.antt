-- ===== src/Utils/Logging.antt =====
-- BrunoCoin/pkg/utils/logging.go: the text for an address and for a colored name. The arguments of
-- a message are computed whether or not it is printed. The loggers themselves only print.
pub mod Printable
use csci1951l_cryptocurrency.Prelude.{
  ℕ, ◌+◌, ◌-◌, ◌*◌, ◌%◌, ◌^◌, List, [], ◌∷◌, ◌++◌, ◌&&◌, Option, none, some, length, take, ◌≡◌, ◌≢◌,
  All, ltb, leb, ◌==◌, if◌then◌else◌,
}
use csci1951l_cryptocurrency.Prelude.Int.{ℤ, pos, negsuc, sub_ℕ}
use csci1951l_cryptocurrency.Prelude.Result.{Result, ok, panic, ◌>>=◌}
use csci1951l_cryptocurrency.Text.{Bytes, codes}
use csci1951l_cryptocurrency.Text.Decimal.{format}
use csci1951l_cryptocurrency.Text.Split.{split, split_none}

-- The value of a digit or a letter, whose case does not matter.
digit_value : ℕ → Option ℕ
digit_value c =
    if leb b'0' c && leb c b'9'
    then some (c - b'0')
    else if leb b'a' c && leb c b'z'
    then some (c - b'a' + 10)
    else if leb b'A' c && leb c b'Z'
    then some (c - b'A' + 10)
    else none

-- The value of `strconv.ParseUint(s, base, 64)`: 0 at a character that is no digit of the base, and
-- the greatest one at a number out of range, whatever follows.
scan64 : ℕ → Bytes → ℕ → ℕ
scan64 base [] n = n
scan64 base (c ∷ s) n = elim (digit_value c) [
  | none ↦ 0
  | some d ↦
      let rest = scan64 base s (n * base + d) in
      if leb base d then 0 else if leb (2 ^ 64) (n * base + d) then 2 ^ 64 - 1 else rest
]

-- A magnitude is cut off where it is out of range.
magnitude : ℕ → ℕ → Bytes → ℕ
magnitude most base s = let n = scan64 base s 0 in if ltb most n then most else n

-- The value of `strconv.ParseInt(s, base, 64)`, whose error is dropped.
unfoldable pub parse_int : ℕ → Bytes → ℤ
unfolding magnitude scan64 digit_value
parse_int base [] = pos 0
parse_int base (c ∷ s) =
    if c == b'-'
    then (let n = magnitude (2 ^ 63) base s in if n == 0 then pos 0 else negsuc (n - 1))
    else if c == b'+'
    then pos (magnitude (2 ^ 63 - 1) base s)
    else pos (magnitude (2 ^ 63 - 1) base (c ∷ s))

-- `colors[int(port)%len(colors)]`, one of seven; the remainder of a negative port is an index out of
-- range unless it is 0.
random_color : ℤ → Result Bytes
random_color (pos n) = ok (27 ∷ b'[' ∷ b'4' ∷ (b'1' + n % 7) ∷ b'm' ∷ [])
random_color (negsuc n) =
    if (n + 1) % 7 == 0 then ok (27 ∷ b'[' ∷ b'4' ∷ b'1' ∷ b'm' ∷ []) else panic

-- The color before the address, and the codes that end it.
painted : Bytes → Bytes → Bytes
painted color addr = color ++ 27 ∷ (codes "[97m[" ++ (addr ++ b']' ∷ 27 ∷ codes "[0m"))

-- The second part of an address after a split at its colons is read as the port.
fmt_parts : Bytes → List Bytes → Result Bytes
fmt_parts addr (host ∷ port ∷ rest) = do
  color ← random_color (parse_int 10 port)
  ok (painted color addr)
fmt_parts addr _ = panic

unfoldable pub fmt_addr : Bytes → Result Bytes
unfolding fmt_parts random_color painted
fmt_addr [] = ok []
fmt_addr (c ∷ s) = fmt_parts (c ∷ s) (split b':' (c ∷ s))

-- `seed%122 + 104`, where the remainder has the sign of the seed.
color_number : ℤ → ℤ
color_number (pos n) = pos (n % 122 + 104)
color_number (negsuc n) = sub_ℕ 104 ((n + 1) % 122)

format_int : ℤ → Bytes
format_int (pos n) = format n
format_int (negsuc n) = b'-' ∷ format (n + 1)

unfoldable pub colorize : Bytes → ℤ → Bytes
unfolding color_number format_int
colorize s seed =
    27 ∷ (codes "[38;5;" ++ (format_int (color_number seed) ++ b'm' ∷ (s ++ 27 ∷ codes "[0m")))

-- `s[:n]`
unfoldable pub slice_to : ℕ → Bytes → Result Bytes
slice_to n s = if leb n (length s) then ok (take n s) else panic

-- `NameTag`: the kind and the front of a hash, in a color that the hash gives.
unfoldable pub tag_of : Bytes → ℕ → Bytes → Result Bytes
tag_of kind n hash = do
  seed ← slice_to 10 hash
  front ← slice_to n hash
  ok (colorize (kind ++ front) (parse_int 16 seed))

-- An address without a colon that is not empty makes `FmtAddr` panic.
pub fmt_addr_panics : (c : ℕ) (s : Bytes) → All (λ b. b ≢ b':') (c ∷ s) → fmt_addr (c ∷ s) ≡ panic
unfolding fmt_addr fmt_parts
fmt_addr_panics c s plain = rw (split_none b':' (c ∷ s) plain)
