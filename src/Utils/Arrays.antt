-- ===== src/Utils/Arrays.antt =====
-- What the helpers of general.go compute.
use native.Mathlib.Nat.{zero-add}
use csci1951l_cryptocurrency.Prelude.{
  ℕ, zero, suc, ◌+◌, ◌<◌, true, ◌≡◌, refl, ◌||◌, arith, length, ◌==◌, if◌then◌else◌, some,
  get_elem?,
}
use csci1951l_cryptocurrency.Prelude.Int.{ℤ, pos, negsuc, leb_ℤ}
use csci1951l_cryptocurrency.Utils.{powd_from, calc_powd}

powd_from-get :
    (k i j n : ℕ)
    → j < k
    → get_elem? (powd_from k i (pos n)) j ≡ some (if i + j == n then b'1' else b'0')
unfolding powd_from
powd_from-get zero i j n h = absurd (omega arith)
powd_from-get (suc k) i zero n h = ground arith
powd_from-get (suc k) i (suc j) n h = ground (arith, powd_from-get k (i + 1) j n)

length-powd_from : (k i : ℕ) (n : ℤ) → length (powd_from k i n) ≡ k
unfolding powd_from
length-powd_from zero i n = refl
length-powd_from (suc k) i (pos n) = omega (arith, length-powd_from k (i + 1) (pos n))
length-powd_from (suc k) i (negsuc n) = omega (arith, length-powd_from k (i + 1) (negsuc n))

calc_powd-pos : (n : ℕ) → n < 30 → calc_powd (pos n) ≡ powd_from 64 0 (pos n)
unfolding calc_powd
calc_powd-pos n h = ground arith

-- A hardness below 30 gives 64 characters: a one at its index, and zeros elsewhere.
pub calc_powd_lem :
    (n : ℕ)
    → n < 30
    → (length (calc_powd (pos n)) ≡ 64)
      × ((j : ℕ) → j < 64 → get_elem? (calc_powd (pos n)) j ≡ some (if j == n then b'1' else b'0'))
calc_powd_lem n h =
    rw (calc_powd-pos n h)
      (length-powd_from 64 0 (pos n), λ j lt. rw (zero-add) at (powd_from-get 64 0 j n lt))

-- Any other hardness counts as 3.
pub calc_powd_fallback :
    (z : ℤ) → (leb_ℤ (pos 30) z || leb_ℤ z (negsuc 0)) ≡ true → calc_powd z ≡ calc_powd (pos 3)
unfolding calc_powd
calc_powd_fallback z h = ground arith
