-- ===== src/Text/Decimal/RoundTrip.antt =====
-- A number below 2 ^ 32 is read back from its decimal form.
use mathlib.Core.WellFounded.{Acc}
use native.Mathlib.Decide.{dec_lt}
use mathlib.Core.Logic.{dif_pos, dif_neg}
use native.Mathlib.Bridge.{le_prop}
use csci1951l_cryptocurrency.Prelude.{
  ℕ, ◌+◌, ◌-◌, ◌*◌, ◌/◌, ◌%◌, ◌<◌, List, [], ◌∷◌, some, ◌≡◌, ◌≢◌, ◌∙◌, refl, arith, ◌==◌, All, ◌≤◌,
  inl, inr, Bool-cases,
}
use csci1951l_cryptocurrency.Prelude.Word.{u32_mod}
use csci1951l_cryptocurrency.Text.Decimal.{emit, lt_wf, format, scan, parse_uint}

scan_digit :
    (n : ℕ) (out : List ℕ) → n < u32_mod → scan ((b'0' + n % 10) ∷ out) (n / 10) ≡ scan out n
unfolding scan
scan_digit n out h =
    let e : (n / 10) * 10 + (b'0' + n % 10 - b'0') ≡ n = omega arith in rw e (ground arith)

scan-emit :
    (n : ℕ) (w : Acc ◌<◌ n) (out : List ℕ) → n < u32_mod → scan (emit n w out) 0 ≡ scan out n
unfolding emit
scan-emit n (Acc.intro _ smaller) out h = elim (dec_lt 0 n) [
  | yes p ↦ rw (dif_pos _ le_prop p) (
      scan-emit (n / 10) (smaller (n / 10) (omega arith)) ((b'0' + n % 10) ∷ out) (omega arith)
      ∙ scan_digit n out h)
  | no p ↦ let e : n ≡ 0 = omega arith in rw (dif_neg _ p, e)
]

abbrev pub IsDigit : ℕ → Type 0
IsDigit c = (b'0' ≤ c) × (c ≤ b'9')

emit-All : (n : ℕ) (w : Acc ◌<◌ n) (out : List ℕ) → All IsDigit out → All IsDigit (emit n w out)
unfolding emit
emit-All n (Acc.intro _ smaller) out h = elim (dec_lt 0 n) [
  | yes p ↦
      rw (dif_pos _ le_prop p) (
        emit-All (n / 10) (smaller (n / 10) (omega arith)) ((b'0' + n % 10) ∷ out) (omega arith, h))
  | no p ↦ rw (dif_neg _ p) h
]

-- The decimal form is digits alone.
pub format-All : (n : ℕ) → All IsDigit (format n)
unfolding format
format-All n = elim (Bool-cases (n == 0)) [
  | inl e ↦ rw e (omega arith)
  | inr e ↦ rw e (emit-All n (lt_wf.apply n) [] tt)
]

-- `n` has digits: the accumulator only grows.
emit-ne-nil : (n : ℕ) (w : Acc ◌<◌ n) (c : ℕ) (out : List ℕ) → emit n w (c ∷ out) ≢ []
unfolding emit
emit-ne-nil n (Acc.intro _ smaller) c out h = elim (dec_lt 0 n) [
  | yes p ↦
      emit-ne-nil (n / 10) (smaller (n / 10) (omega arith)) (b'0' + n % 10) (c ∷ out)
        (rw (dif_pos _ le_prop p) at h)
  | no p ↦ cc (rw (dif_neg _ p) at h)
]

scan-format : (n : ℕ) → n < u32_mod → scan (format n) 0 ≡ some n
unfolding format
scan-format n h = elim (Bool-cases (n == 0)) [
  | inl e ↦ let z : n ≡ 0 = ground arith in rw z (unfold scan in refl)
  | inr e ↦ rw e (scan-emit n (lt_wf.apply n) [] h ∙ scan-nil n)
]
  where
    scan-nil : (m : ℕ) → scan [] m ≡ some m
    scan-nil m = unfold scan in refl

emit_pos-ne-nil : (n : ℕ) (w : Acc ◌<◌ n) → 0 < n → emit n w [] ≢ []
unfolding emit
emit_pos-ne-nil n (Acc.intro _ smaller) p =
    rw (dif_pos _ le_prop p)
      (emit-ne-nil (n / 10) (smaller (n / 10) (omega arith)) (b'0' + n % 10) [])

format-ne-nil : (n : ℕ) → format n ≢ []
unfolding format
format-ne-nil n = elim (Bool-cases (n == 0)) [
  | inl e ↦ rw e (λ h. cc)
  | inr e ↦ rw e (emit_pos-ne-nil n (lt_wf.apply n) (ground arith))
]

parse_scan : (s : List ℕ) (n : ℕ) → s ≢ [] → scan s 0 ≡ some n → parse_uint s ≡ some n
unfolding parse_uint
parse_scan [] n h e = absurd (h refl)
parse_scan (c ∷ s) n h e = e

-- A number below 2 ^ 32 is read back.
pub parse_uint-format : (n : ℕ) → n < u32_mod → parse_uint (format n) ≡ some n
parse_uint-format n h = parse_scan (format n) n (format-ne-nil n) (scan-format n h)
