-- ===== src/Prelude/Slices.antt =====
-- Prefixes and suffixes of lists.
use Prim.Native.Nat.{ℕ, zero, suc, ◌+◌, ◌-◌, ◌≤◌}
use mathlib.Core.Path.{◌≡◌, refl, sym, ap}
use mathlib.Core.Logic.{inl, inr}
use mathlib.Core.List.{List, [], ◌∷◌, ◌++◌}
use native.Mathlib.Omega.{arith}
use csci1951l_cryptocurrency.Prelude.Tests.{ltb, if◌then◌else◌, Bool-cases}
use csci1951l_cryptocurrency.Prelude.Lists.{length, take, drop}

module _ {ℓ} {A : Type ℓ} where
  pub take_all : (n : ℕ) (l : List A) → length l ≤ n → take n l ≡ l
  take_all zero [] h = refl
  take_all zero (x ∷ l) h = absurd (omega arith)
  take_all (suc n) [] h = refl
  take_all (suc n) (x ∷ l) h = ap (◌∷◌ x) (take_all n l (omega arith))

  pub drop_all : (n : ℕ) (l : List A) → length l ≤ n → drop n l ≡ []
  drop_all zero [] h = refl
  drop_all zero (x ∷ l) h = absurd (omega arith)
  drop_all (suc n) [] h = refl
  drop_all (suc n) (x ∷ l) h = drop_all n l (omega arith)

  pub drop_nil : (n : ℕ) → drop {A = A} n [] ≡ []
  drop_nil zero = refl
  drop_nil (suc n) = refl

  pub take-nil : (n : ℕ) → take {A = A} n [] ≡ []
  take-nil zero = refl
  take-nil (suc n) = refl

  -- One more entry at the end of a list is in a prefix exactly if the prefix is long enough.
  pub take-append_one :
      (n : ℕ) (l : List A) (x : A)
      → take n (l ++ x ∷ []) ≡ take n l ++ (if ltb (length l) n then x ∷ [] else [])
  take-append_one zero [] x = refl
  take-append_one zero (y ∷ l) x = ground arith
  take-append_one (suc n) [] x = ground (arith, take-nil n)
  take-append_one (suc n) (y ∷ l) x = ground (arith, take-append_one n l x)

  pub drop-append : (n : ℕ) (l m : List A) → n ≤ length l → drop n (l ++ m) ≡ drop n l ++ m
  drop-append zero l m h = refl
  drop-append (suc n) [] m h = absurd (omega arith)
  drop-append (suc n) (y ∷ l) m h = drop-append n l m (omega arith)

  pub length-take_le : (n : ℕ) (l : List A) → length (take n l) ≤ length l
  length-take_le zero l = omega arith
  length-take_le (suc n) [] = omega arith
  length-take_le (suc n) (x ∷ l) = omega (arith, length-take_le n l)

  drop-take : (n j k : ℕ) (l : List A) → j ≡ n + k → drop n (take j l) ≡ take k (drop n l)
  drop-take zero j k l e = let same : j ≡ k = omega arith in ap (λ i. take i l) same
  drop-take (suc n) zero k l e = absurd (omega arith)
  drop-take (suc n) (suc j) k [] e = sym (take-nil k)
  drop-take (suc n) (suc j) k (x ∷ l) e = drop-take n j k l (omega arith)

  pub drop_at : (l m : List A) → drop (length l) (l ++ m) ≡ m
  drop_at [] m = refl
  drop_at (x ∷ l) m = drop_at l m

  pub append-take-drop : (n : ℕ) (l : List A) → take n l ++ drop n l ≡ l
  append-take-drop zero l = refl
  append-take-drop (suc n) [] = refl
  append-take-drop (suc n) (x ∷ l) = ap (◌∷◌ x) (append-take-drop n l)

  pub length-drop : (n : ℕ) (l : List A) → length (drop n l) ≡ length l - n
  length-drop zero l = omega arith
  length-drop (suc n) [] = omega arith
  length-drop (suc n) (x ∷ l) = omega (arith, length-drop n l)

  -- The entries of a list behind its first `n`, up to `k` of them.
  pub window :
      (n j k : ℕ) (l : List A)
      → j ≡ n + k
      → drop n (take (if ltb j (length l) then j else length l) l) ≡ take k (drop n l)
  window n j k l e = elim (Bool-cases (ltb j (length l))) [
    | inl long ↦ rw long (drop-take n j k l e)
    | inr short ↦ rw (
      short,
      take_all (length l) l (omega arith),
      take_all k (drop n l) (ground (arith, length-drop n l)),
    )
  ]
