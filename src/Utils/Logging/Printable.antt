-- ===== src/Utils/Logging/Printable.antt =====
-- What the arguments of the messages are computed from without a panic.
use csci1951l_cryptocurrency.Prelude.{
  ℕ, ◌+◌, ◌-◌, ◌%◌, ◌^◌, ◌≤◌, List, [], ◌∷◌, ◌++◌, true, false, ◌≡◌, ◌≢◌, refl, ap, ◌∙◌, arith, All,
  length, take, leb, ◌==◌, ◌⊎◌, inl, inr, Bool-cases,
}
use csci1951l_cryptocurrency.Prelude.Result.{ok, panic}
use csci1951l_cryptocurrency.Prelude.Int.{ℤ, pos, negsuc}
use csci1951l_cryptocurrency.Text.{Bytes}
use csci1951l_cryptocurrency.Text.Decimal.{format}
use csci1951l_cryptocurrency.Text.Decimal.RoundTrip.{IsDigit, format-All}
use csci1951l_cryptocurrency.Text.Split.{split, split_none, split_at}
use csci1951l_cryptocurrency.Utils.Logging.{
  magnitude, parse_int, random_color, fmt_parts, painted, fmt_addr, slice_to, tag_of, colorize,
}

slice_to_inside : (n : ℕ) (s : Bytes) → n ≤ length s → slice_to n s ≡ ok (take n s)
unfolding slice_to
slice_to_inside n s inside = let fits : leb n (length s) ≡ true = ground arith in rw fits

-- A hash of ten characters or more has a tag of its front.
pub tag_of_returns :
    (kind : Bytes) (n : ℕ) (hash : Bytes)
    → 10 ≤ length hash
    → n ≤ length hash
    → (tag : Bytes) × (tag_of kind n hash ≡ ok tag)
unfolding tag_of
tag_of_returns kind n hash long inside = (
  colorize (kind ++ take n hash) (parse_int 16 (take 10 hash)),
  rw (slice_to_inside 10 hash long, slice_to_inside n hash inside),
)

-- Digits are read as a number that is not negative.
parse_int-pos : (s : Bytes) → All IsDigit s → (n : ℕ) × (parse_int 10 s ≡ pos n)
unfolding parse_int
parse_int-pos [] digits = (0, refl)
parse_int-pos (c ∷ s) digits =
    let plain : (c == b'-') ≡ false = ground (arith, digits.0) in
    let signless : (c == b'+') ≡ false = ground (arith, digits.0) in
    (magnitude (2 ^ 63 - 1) 10 (c ∷ s), rw (plain, signless))

fmt_addr_port :
    (addr host port : Bytes) (rest : List Bytes) (n : ℕ)
    → split b':' addr ≡ host ∷ port ∷ rest
    → parse_int 10 port ≡ pos n
    → (text : Bytes) × (fmt_addr addr ≡ ok text)
unfolding fmt_addr
fmt_addr_port [] host port rest n parts number = ([], refl)
fmt_addr_port (c ∷ s) host port rest n parts number =
    (painted (27 ∷ b'[' ∷ b'4' ∷ (b'1' + n % 7) ∷ b'm' ∷ []) (c ∷ s), rw (parts, number))

digits-plain : (s : Bytes) → All IsDigit s → All (λ c. c ≢ b':') s
digits-plain [] digits = tt
digits-plain (c ∷ s) digits = (omega (arith, digits.0), digits-plain s digits.1)

-- The address of a host without a colon and a port has a text.
pub fmt_addr_returns :
    (hostname : Bytes) (port : ℕ)
    → All (λ c. c ≢ b':') hostname
    → (text : Bytes) × (fmt_addr (hostname ++ b':' ∷ format port) ≡ ok text)
fmt_addr_returns hostname port plain =
    let digits = format-All port in
    let (n, number) = parse_int-pos (format port) digits in
    fmt_addr_port (hostname ++ b':' ∷ format port) hostname (format port) [] n
      (split_at b':' hostname (format port) plain
        ∙ ap (λ (parts : List Bytes). hostname ∷ parts)
            (split_none b':' (format port) (digits-plain (format port) digits)))
      number

random_color_ends :
    (n : ℤ) → (random_color n ≡ panic) ⊎ ((color : Bytes) × (random_color n ≡ ok color))
unfolding random_color
random_color_ends (pos n) = inr (27 ∷ b'[' ∷ b'4' ∷ (b'1' + n % 7) ∷ b'm' ∷ [], refl)
random_color_ends (negsuc n) = elim (Bool-cases ((n + 1) % 7 == 0)) [
  | inl whole ↦ inr (27 ∷ b'[' ∷ b'4' ∷ b'1' ∷ b'm' ∷ [], rw whole)
  | inr more ↦ inl (rw more)
]

fmt_parts_ends :
    (addr : Bytes) (parts : List Bytes)
    → (fmt_parts addr parts ≡ panic) ⊎ ((text : Bytes) × (fmt_parts addr parts ≡ ok text))
unfolding fmt_parts
fmt_parts_ends addr [] = inl refl
fmt_parts_ends addr (host ∷ []) = inl refl
fmt_parts_ends addr (host ∷ port ∷ rest) = elim (random_color_ends (parse_int 10 port)) [
  | inl out ↦ inl (rw out)
  | inr (color, drawn) ↦ inr (painted color addr, rw drawn)
]

-- Whatever the address, `FmtAddr` panics or returns.
pub fmt_addr_ends :
    (addr : Bytes) → (fmt_addr addr ≡ panic) ⊎ ((text : Bytes) × (fmt_addr addr ≡ ok text))
unfolding fmt_addr
fmt_addr_ends [] = inr ([], refl)
fmt_addr_ends (c ∷ s) = fmt_parts_ends (c ∷ s) (split b':' (c ∷ s))
