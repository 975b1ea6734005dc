-- ===== src/Text/Equality.antt =====
-- `==` of Go strings.
use csci1951l_cryptocurrency.Prelude.{
  ℕ, List, [], ◌∷◌, Bool, true, false, ◌&&◌, ◌≡◌, refl, ◌↔◌, arith, ◌==◌, subst,
}

unfoldable pub beq : List ℕ → List ℕ → Bool
beq [] [] = true
beq (c ∷ s) (d ∷ t) = c == d && beq s t
beq s t = false

pub beq_refl : (s : List ℕ) → beq s s ≡ true
unfolding beq
beq_refl [] = refl
beq_refl (c ∷ s) = ground (arith, beq_refl s)

pub eq_of_beq : (s t : List ℕ) → beq s t ≡ true → s ≡ t
unfolding beq
eq_of_beq [] [] h = refl
eq_of_beq (c ∷ s) (d ∷ t) h = ground (arith, eq_of_beq s t)
eq_of_beq [] (d ∷ t) h = cc
eq_of_beq (c ∷ s) [] h = cc

pub beq_iff : (s t : List ℕ) → (beq s t ≡ true) ↔ (s ≡ t)
beq_iff s t = (eq_of_beq s t, λ e. subst (λ u. beq s u ≡ true) e (beq_refl s))
