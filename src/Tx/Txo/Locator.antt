-- ===== src/Tx/Txo/Locator.antt =====
-- Locators of transaction outputs are parsed back, and so tell outputs apart.
use csci1951l_cryptocurrency.Prelude.{ℕ, ◌<◌, ◌/◌, ◌%◌, [], ◌∷◌, ◌≡◌, ◌≢◌, ◌∙◌, sym, ap, All, arith}
use csci1951l_cryptocurrency.Prelude.Word.{u32_mod}
use csci1951l_cryptocurrency.Prelude.Result.{Result, ok}
use csci1951l_cryptocurrency.Text.{Bytes}
use csci1951l_cryptocurrency.Text.Hex.{encode_to_string}
use csci1951l_cryptocurrency.Text.Hex.RoundTrip.{digit-ne}
use csci1951l_cryptocurrency.Text.Decimal.{format}
use csci1951l_cryptocurrency.Text.Decimal.RoundTrip.{IsDigit, format-All, parse_uint-format}
use csci1951l_cryptocurrency.Text.Split.{split_none, split_at}
use csci1951l_cryptocurrency.Tx.Txo.{prs_parts, prs_txo_loc, mk_txo_loc}

-- No byte is a dash.
abbrev pub IsDashless : Bytes → Type 0
IsDashless = All (λ c. c ≢ b'-')

digits-IsDashless : (s : Bytes) → All IsDigit s → IsDashless s
digits-IsDashless [] h = tt
digits-IsDashless (c ∷ s) h = (omega arith, digits-IsDashless s h.1)

-- A locator made of a hash without a dash and a 32-bit index is parsed back to both.
pub prs_txo_loc-mk :
    (h : Bytes) (i : ℕ) → IsDashless h → i < u32_mod → prs_txo_loc (mk_txo_loc h i) ≡ ok (h, i)
unfolding prs_txo_loc mk_txo_loc
prs_txo_loc-mk h i d lt = rw (
  split_at b'-' h (format i) d,
  split_none b'-' (format i) (digits-IsDashless (format i) (format-All i)),
  parse_uint-format i lt,
  prs_parts,
)

-- So locators of different outputs are different keys.
pub mk_txo_loc_inj :
    (h h' : Bytes) (i i' : ℕ)
    → IsDashless h
    → IsDashless h'
    → i < u32_mod
    → i' < u32_mod
    → mk_txo_loc h i ≡ mk_txo_loc h' i'
    → (h ≡ h') × (i ≡ i')
mk_txo_loc_inj h h' i i' d d' lt lt' e =
    let p : ◌≡◌ {A = Result (Bytes × ℕ)} (ok (h, i)) (ok (h', i')) =
      sym (prs_txo_loc-mk h i d lt) ∙ ap prs_txo_loc e ∙ prs_txo_loc-mk h' i' d' lt' in
    ground arith

-- A hex string has no dash.
pub encode-IsDashless : (v : Bytes) → IsDashless (encode_to_string v)
unfolding encode_to_string
encode-IsDashless [] = tt
encode-IsDashless (b ∷ v) = (digit-ne (b / 16), (digit-ne (b % 16), encode-IsDashless v))
