-- ===== src/Node/Local/Longest.antt =====
-- The choice among the peers' answers in `Bootstrap`.
use csci1951l_cryptocurrency.Prelude.{
  ℕ, ◌≤◌, ◌<◌, List, [], ◌∷◌, ◌++◌, false, Option, none, some, ◌≡◌, refl, ap, ◌∙◌, arith, All,
  length, ltb, if◌then◌else◌,
}
use csci1951l_cryptocurrency.Text.{Bytes}
use csci1951l_cryptocurrency.Crypto.{Crypto}
use csci1951l_cryptocurrency.Node.Local.{longest}

-- No answer, or one with at most this number of hashes.
abbrev pub IsUpTo : ℕ → Option (List Bytes) → Type 0
IsUpTo k none = Unit
IsUpTo k (some hashes) = length hashes ≤ k

module _ ⦃crypto : Crypto⦄ where
  longest-rest :
      (best : List Bytes) (answers : List (Option (List Bytes)))
      → All (IsUpTo (length best)) answers
      → longest (some best) answers ≡ some best
  unfolding longest
  longest-rest best [] all = refl
  longest-rest best (none ∷ answers) all = longest-rest best answers all.1
  longest-rest best (some hashes ∷ answers) all =
      let more : ltb (length best) (length hashes) ≡ false = ground (arith, all.0) in
      rw more (longest-rest best answers all.1)

  longest-some :
      (k : ℕ) (c best : List Bytes) (before after : List (Option (List Bytes)))
      → k < length best
      → length c ≤ k
      → All (IsUpTo k) before
      → All (IsUpTo (length best)) after
      → longest (some c) (before ++ some best ∷ after) ≡ some best
  unfolding longest
  longest-some k c best [] after more small shorter rest =
      let longer : (if ltb (length c) (length best) then best else c) ≡ best = ground arith in
      ap (λ l. longest (some l) after) longer ∙ longest-rest best after rest
  longest-some k c best (none ∷ before) after more small shorter rest =
      longest-some k c best before after more small shorter.1 rest
  longest-some k c best (some hashes ∷ before) after more small shorter rest =
      longest-some k (if ltb (length c) (length hashes) then hashes else c) best before after more
        (ground (arith, shorter.0)) shorter.1 rest

  -- The first of the longest answers is kept.
  longest_lem :
      (k : ℕ) (best : List Bytes) (before after : List (Option (List Bytes)))
      → k < length best
      → All (IsUpTo k) before
      → All (IsUpTo (length best)) after
      → longest none (before ++ some best ∷ after) ≡ some best
  unfolding longest
  longest_lem k best [] after more shorter rest = longest-rest best after rest
  longest_lem k best (none ∷ before) after more shorter rest =
      longest_lem k best before after more shorter.1 rest
  longest_lem k best (some hashes ∷ before) after more shorter rest =
      longest-some k hashes best before after more shorter.0 shorter.1 rest

  -- An answer that is longer than those before it, and no shorter than those after it.
  pub record IsFirstLongest (best : List Bytes) (answers : List (Option (List Bytes)))
      : Type 0 where
    pub before : List (Option (List Bytes))
    pub after : List (Option (List Bytes))
    pub split : answers ≡ before ++ some best ∷ after
    pub bound : ℕ
    pub longer : bound < length best
    pub shorter : All (IsUpTo bound) before
    pub others : All (IsUpTo (length best)) after

  pub longest-IsFirstLongest :
      (best : List Bytes) (answers : List (Option (List Bytes)))
      → IsFirstLongest best answers
      → longest none answers ≡ some best
  longest-IsFirstLongest best answers v =
      ap (longest none) v.split
      ∙ longest_lem v.bound best v.before v.after v.longer v.shorter v.others
