-- ===== src/Text/Split.antt =====
-- `strings.Split(s, sep)` for a separator of one byte.
use csci1951l_cryptocurrency.Prelude.{
  ℕ, List, [], ◌∷◌, ◌++◌, ◌≡◌, ◌≢◌, refl, arith, ◌==◌, if◌then◌else◌, All,
}

put_head : ℕ → List (List ℕ) → List (List ℕ)
put_head c [] = []
put_head c (part ∷ parts) = (c ∷ part) ∷ parts

unfoldable pub split : ℕ → List ℕ → List (List ℕ)
unfolding put_head
split sep [] = [] ∷ []
split sep (c ∷ s) = if c == sep then [] ∷ split sep s else put_head c (split sep s)

pub split_none : (sep : ℕ) (s : List ℕ) → All (λ c. c ≢ sep) s → split sep s ≡ s ∷ []
unfolding split
split_none sep [] h = refl
split_none sep (c ∷ s) h = ground (arith, split_none sep s h.1)

pub split_at :
    (sep : ℕ) (s t : List ℕ) → All (λ c. c ≢ sep) s → split sep (s ++ sep ∷ t) ≡ s ∷ split sep t
unfolding split
split_at sep [] t h = ground arith
split_at sep (c ∷ s) t h = ground (arith, split_at sep s t h.1)
