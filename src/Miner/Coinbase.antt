-- ===== src/Miner/Coinbase.antt =====
-- The coinbase transaction of a miner.
use csci1951l_cryptocurrency.Prelude.{
  ◌<◌, List, [], ◌∷◌, map, true, false, Option, some, ◌≡◌, refl, sym, ap, ◌∙◌, arith, Bool-cases,
  inl, inr, ◌==◌,
}
use csci1951l_cryptocurrency.Prelude.Word.{u32_mod}
use csci1951l_cryptocurrency.Prelude.Result.{ok, ok-injective}
use csci1951l_cryptocurrency.Text.Hex.{encode_to_string}
use csci1951l_cryptocurrency.Crypto.{Crypto}
use csci1951l_cryptocurrency.Proto
use csci1951l_cryptocurrency.Proto.Sizes.{sz_of_tx_lem}
use csci1951l_cryptocurrency.Tx
use csci1951l_cryptocurrency.Tx.{Transaction, sum_outputs, is_coinbase}
use csci1951l_cryptocurrency.Tx.Sums.{claimed, paid, sum_outputs_lem}
use csci1951l_cryptocurrency.Tx.RoundTrip.{serialize-deserialize}
use csci1951l_cryptocurrency.Tx.Txo
use csci1951l_cryptocurrency.Block.Made.{unmark_tx-deserialize}
use csci1951l_cryptocurrency.Block.RoundTrip.{unmark_tx}
use csci1951l_cryptocurrency.Miner.{Miner, all_some, reward_of, gen_cb_tx}

all_some-some : (txs : List Transaction) → all_some (map some txs) ≡ some txs
unfolding all_some
all_some-some [] = refl
all_some-some (t ∷ txs) = rw (all_some-some txs)

module _ ⦃crypto : Crypto⦄ where
  reward_of-small : (txs : List Transaction) (m : Miner) → reward_of txs m < u32_mod
  unfolding reward_of
  reward_of-small txs m = omega arith

  -- A transaction that pays a miner its reward for others: 28 bytes, of the 56 that the mining pool
  -- leaves beside the header.
  pub record IsCoinbase (m : Miner) (txs : List Transaction) (cb : Transaction) : Type 0 where
    pub coinbase : is_coinbase cb ≡ true
    pub pays : sum_outputs cb ≡ reward_of txs m
    pub size : Tx.sz cb ≡ 28
    pub unmarked : unmark_tx cb ≡ cb
    pub unclaimed : claimed cb.inputs ≡ 0
    pub exact : paid cb.outputs ≡ reward_of txs m

  made_of : List Transaction → Miner → Proto.Transaction
  made_of txs m =
      Proto.new_tx m.conf.ver []
        (Proto.new_tx_outpt (reward_of txs m) (encode_to_string m.id.public_key_bytes) ∷ [])
        m.conf.def_lck_tm

  made_of-IsCoinbase :
      (txs : List Transaction) (m : Miner) → IsCoinbase m txs (Tx.deserialize (made_of txs m))
  unfolding made_of Tx.deserialize Proto.new_tx Proto.new_tx_outpt is_coinbase Tx.sz Txo.deserialize
  made_of-IsCoinbase txs m =
      let small = reward_of-small txs m in
      record {
        coinbase = refl;
        pays =
            sum_outputs_lem (Tx.deserialize (made_of txs m)) (omega (arith, small)) ∙ omega arith;
        size =
            ap Proto.sz_of_tx (serialize-deserialize (made_of txs m))
            ∙ sz_of_tx_lem (made_of txs m) (omega arith);
        unmarked = unmark_tx-deserialize (made_of txs m);
        unclaimed = refl;
        exact = omega arith;
      }

  -- `GenCBTx` makes such a transaction for one transaction or more, and nil for none.
  pub gen_cb_tx_lem :
      (t : Transaction) (txs : List Transaction) (m : Miner) (made : Option Transaction)
      → gen_cb_tx (some t ∷ map some txs) m ≡ ok made
      → (cb : Transaction) × (made ≡ some cb) × IsCoinbase m (t ∷ txs) cb
  unfolding gen_cb_tx made_of
  gen_cb_tx_lem t txs m made e =
      let whole : all_some (some t ∷ map some txs) ≡ some (t ∷ txs) = all_some-some (t ∷ txs) in
      elim (Bool-cases (m.conf.subsdy_hlv_rt == 0)) [
        | inl never ↦ absurd (ground (arith, rw (gen_cb_tx, whole, never) at e))
        | inr halves ↦ (
          Tx.deserialize (made_of (t ∷ txs) m),
          sym (ok-injective (rw (gen_cb_tx, whole, halves) at e)),
          made_of-IsCoinbase (t ∷ txs) m,
        )
      ]

  pub gen_cb_tx_returns :
      (t : Transaction) (txs : List Transaction) (m : Miner)
      → 0 < m.conf.subsdy_hlv_rt
      → (made : Option Transaction) × (gen_cb_tx (some t ∷ map some txs) m ≡ ok made)
  unfolding gen_cb_tx made_of
  gen_cb_tx_returns t txs m halves =
      let whole : all_some (some t ∷ map some txs) ≡ some (t ∷ txs) = all_some-some (t ∷ txs) in
      let positive : (m.conf.subsdy_hlv_rt == 0) ≡ false = ground (arith, halves) in
      (some (Tx.deserialize (made_of (t ∷ txs) m)), rw (gen_cb_tx, whole, positive))
