-- ===== src/Utils.antt =====
-- BrunoCoin/pkg/utils/general.go. An array that is changed in place comes back as the result.
pub mod Arrays
pub mod Logging
pub mod Tests
use csci1951l_cryptocurrency.Prelude.{
  ℕ, zero, suc, ◌+◌, ◌-◌, ◌/◌, List, [], ◌∷◌, ◌++◌, Bool, true, false, Option, none, some, ◌||◌,
  length, get_elem?, set, leb, ltb, ◌==◌, not, if◌then◌else◌,
}
use csci1951l_cryptocurrency.Prelude.Int.{ℤ, pos, negsuc, leb_ℤ}
use csci1951l_cryptocurrency.Text.{Bytes}
use csci1951l_cryptocurrency.Text.Equality.{beq}

-- `a[i], a[j] = x, y` for the values read first; both indices are in range where it is called.
swap : List Bytes → ℕ → ℕ → List Bytes
swap a i j = elim (get_elem? a i) [
  | none ↦ a
  | some x ↦ elim (get_elem? a j) [ none ↦ a | some y ↦ set (set a i y) j x ]
]

-- The rounds of the loop that are left, from index `i` on.
rev_loop : ℕ → ℕ → List Bytes → List Bytes
rev_loop zero i a = a
rev_loop (suc k) i a = rev_loop k (i + 1) (swap a i (length a - 1 - i))

unfoldable pub rev_str_arr : List Bytes → List Bytes
unfolding rev_loop swap
rev_str_arr a = rev_loop (length a / 2) 0 a

-- The characters of the target from index `i` on.
powd_from : ℕ → ℕ → ℤ → Bytes
powd_from zero i n = []
powd_from (suc k) i (pos n) = (if i == n then b'1' else b'0') ∷ powd_from k (i + 1) (pos n)
powd_from (suc k) i (negsuc n) = b'0' ∷ powd_from k (i + 1) (negsuc n)

pub calc_powd : ℤ → Bytes
calc_powd powd_num_zeros = powd_from 64 0 (
    if leb_ℤ powd_num_zeros (negsuc 0) || leb_ℤ (pos 30) powd_num_zeros
    then pos 3
    else powd_num_zeros)

unfoldable pub in_slice : List Bytes → Bytes → Bool
in_slice [] val = false
in_slice (v ∷ a) val = if beq v val then true else in_slice a val
