-- ===== src/Block/Merkle.antt =====
-- The loop of `CalcMrklRt` ends for any block but the empty one.
use csci1951l_cryptocurrency.Prelude.{
  ℕ, zero, suc, ◌+◌, ◌*◌, ◌/◌, ◌<◌, List, [], ◌∷◌, ◌≡◌, ◌⊎◌, refl, arith, length, ltb, Bool-cases,
  inl, inr, length-map,
}
use csci1951l_cryptocurrency.Prelude.Result.{ok, out_of_fuel}
use csci1951l_cryptocurrency.Text.{Bytes}
use csci1951l_cryptocurrency.Crypto.{Crypto}
use csci1951l_cryptocurrency.Tx
use csci1951l_cryptocurrency.Tx.{Transaction}
use csci1951l_cryptocurrency.Block.{
  append_last, pad_even, join_pairs, mrkl_loop, leaves, calc_mrkl_rt_within, calc_mrkl_rt,
}

length-append_last {ℓ} :
    {A : Type ℓ} (x : A) (l : List A) → length (append_last (x ∷ l)) ≡ length l + 2
unfolding append_last
length-append_last x [] = refl
length-append_last x (y ∷ l) = omega (arith, length-append_last y l)

-- A padded level has the next even number of entries.
length-pad_even {ℓ} : {A : Type ℓ} (l : List A) → length (pad_even l) ≡ 2 * ((length l + 1) / 2)
unfolding pad_even
length-pad_even [] = refl
length-pad_even (x ∷ l) = ground (arith, length-append_last x l)

module _ ⦃crypto : Crypto⦄ where
  length-join_pairs : (l : List Bytes) → length (join_pairs l) ≡ length l / 2
  unfolding join_pairs
  length-join_pairs (x ∷ y ∷ l) = omega (arith, length-join_pairs l)
  length-join_pairs (x ∷ []) = refl
  length-join_pairs [] = refl

  mrkl_loop_ends :
      (fuel : ℕ) (l : List Bytes)
      → 0 < length l
      → length l < fuel
      → (rt : Bytes) × (mrkl_loop fuel l ≡ ok rt)
  unfolding mrkl_loop
  mrkl_loop_ends zero l p q = absurd (omega arith)
  mrkl_loop_ends (suc fuel) [] p q = absurd (omega arith)
  mrkl_loop_ends (suc fuel) (h ∷ []) p q = (h, refl)
  mrkl_loop_ends (suc fuel) (h ∷ k ∷ l) p q =
      let e = length-join_pairs (pad_even (h ∷ k ∷ l)) in
      let e' = length-pad_even (h ∷ k ∷ l) in
      mrkl_loop_ends fuel (join_pairs (pad_even (h ∷ k ∷ l))) (omega arith) (omega arith)

  length-leaves :
      (t : Transaction) (txs : List Transaction)
      → (0 < length (leaves (t ∷ txs))) × (length (leaves (t ∷ txs)) < length (t ∷ txs) + 2)
  unfolding leaves
  length-leaves t txs = elim (Bool-cases (ltb 1 (length (t ∷ txs)))) [
    | inl e ↦
        rw (e, length-map (pad_even (t ∷ txs)) Tx.hash) (omega (arith, length-pad_even (t ∷ txs)))
    | inr e ↦ rw (e, length-map (t ∷ txs) Tx.hash) (omega arith)
  ]

  pub calc_mrkl_rt_ends :
      (t : Transaction) (txs : List Transaction) → (rt : Bytes) × (calc_mrkl_rt (t ∷ txs) ≡ ok rt)
  unfolding calc_mrkl_rt
  calc_mrkl_rt_ends t txs =
      mrkl_loop_ends (length (t ∷ txs) + 2) (leaves (t ∷ txs)) (length-leaves t txs).0
        (length-leaves t txs).1

  empty_spins : (fuel : ℕ) → calc_mrkl_rt_within fuel [] ≡ out_of_fuel
  unfolding calc_mrkl_rt_within
  empty_spins zero = refl
  empty_spins (suc fuel) = empty_spins fuel

  -- Either there is no transaction, and the loop does not end within any number of rounds; or the
  -- Merkle root is computed, within as many rounds as there are transactions and two more.
  pub calc_mrkl_rt_cases :
      (txs : List Transaction)
      → ((txs ≡ []) × ((fuel : ℕ) → calc_mrkl_rt_within fuel txs ≡ out_of_fuel))
        ⊎ ((rt : Bytes) × (calc_mrkl_rt txs ≡ ok rt))
  calc_mrkl_rt_cases [] = inl (refl, empty_spins)
  calc_mrkl_rt_cases (t ∷ txs) = inr (calc_mrkl_rt_ends t txs)
