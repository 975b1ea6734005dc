-- ===== src/Text/Decimal.antt =====
-- `%v` of an unsigned number, and `strconv.ParseUint(s, 10, 32)`.
pub mod RoundTrip
use mathlib.Core.Logic.{dite}
use mathlib.Core.WellFounded.{Acc, WellFounded}
use native.Mathlib.Decide.{dec_lt}
use csci1951l_cryptocurrency.Prelude.{
  ℕ, zero, suc, ◌+◌, ◌-◌, ◌*◌, ◌/◌, ◌%◌, ◌<◌, List, [], ◌∷◌, ◌||◌, Option, none, some, ◌≡◌, refl,
  arith, ltb, leb, ◌==◌, if◌then◌else◌,
}
use csci1951l_cryptocurrency.Prelude.Word.{u32_mod}

Acc-below : (k n : ℕ) → n < k → Acc ◌<◌ n
Acc-below zero n h = elim h [ ]
Acc-below (suc k) n h = Acc.intro n (λ m hm. Acc-below k m (omega arith))

lt_wf : WellFounded ◌<◌
unfolding Acc-below
lt_wf = record { apply = λ n. Acc-below (suc n) n (omega arith) }

-- The digits of `n`, before those already written.
emit : (n : ℕ) → Acc ◌<◌ n → List ℕ → List ℕ
emit n (Acc.intro _ smaller) out =
    dite (dec_lt 0 n) (λ h. emit (n / 10) (smaller (n / 10) (omega arith)) ((b'0' + n % 10) ∷ out))
      (λ _. out)

unfoldable pub format : ℕ → List ℕ
unfolding emit lt_wf dec_lt
format n = if n == 0 then b'0' ∷ [] else emit n (lt_wf.apply n) []

-- The value read so far is kept below 2 ^ 32, else the result is out of range.
scan : List ℕ → ℕ → Option ℕ
scan [] n = some n
scan (c ∷ s) n =
    let rest = scan s (n * 10 + (c - b'0')) in
    if ltb c b'0' || ltb b'9' c
    then none
    else if leb u32_mod (n * 10 + (c - b'0'))
    then none
    else rest

unfoldable pub parse_uint : List ℕ → Option ℕ
unfolding scan
parse_uint [] = none
parse_uint (c ∷ s) = scan (c ∷ s) 0
