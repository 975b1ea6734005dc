-- ===== src/Miner/Soundness.antt =====
-- The methods of the miner keep its pool sound.
use csci1951l_cryptocurrency.Prelude.{
  ℕ, ◌<◌, List, ◌∷◌, map, Bool, true, false, Option, none, some, ◌≡◌, refl, subst, arith,
  Bool-cases, if-cases, inl, inr, not,
}
use csci1951l_cryptocurrency.Prelude.Word.{u32_mod}
use csci1951l_cryptocurrency.Prelude.Result.{ok, >>=-eq-ok, ok-injective}
use csci1951l_cryptocurrency.Utils.Logging.{fmt_addr}
use csci1951l_cryptocurrency.Crypto.{Crypto}
use csci1951l_cryptocurrency.Crypto.Id.{SimpleId}
use csci1951l_cryptocurrency.Tx.{Transaction}
use csci1951l_cryptocurrency.Tx.Heap
use csci1951l_cryptocurrency.Block
use csci1951l_cryptocurrency.Block.{Block}
use csci1951l_cryptocurrency.Miner.{
  Miner, Sent, set_hash, inc_chn_len, new, hndl_chk_blk, hndl_blk, hndl_tx, gen_cb_tx,
  new_mining_pool, dif_trg, calc_nonce, finish_round, mine_round, mine,
}
use csci1951l_cryptocurrency.Miner.Config.{Config}
use csci1951l_cryptocurrency.Miner.TxPool
use csci1951l_cryptocurrency.Miner.TxPool.{TxPool, new_tx_pool}
use csci1951l_cryptocurrency.Miner.TxPool.Sound.{IsSoundPool, add-IsSoundPool, chk_txs-IsSoundPool}

new_tx_pool-IsSoundPool : (c : Config) → c.tx_p_cap < u32_mod → IsSoundPool (new_tx_pool c)
unfolding new_tx_pool Heap.new_tx_heap
new_tx_pool-IsSoundPool c word = record {
  counts = record { counted = refl; bounded = omega arith; word = word };
  order = λ c pos inside. absurd (omega arith);
}

module _ ⦃crypto : Crypto⦄ where
  -- The pool of the miner, if there is one, counts its entries and is a heap.
  abbrev pub IsPoolSound : Option Miner → Type 0
  IsPoolSound none = Unit
  IsPoolSound (some m) = IsSoundPool m.tx_p

  pub new-IsSoundPool : (c : Config) (id : SimpleId) → c.tx_p_cap < u32_mod → IsPoolSound (new c id)
  unfolding new new_tx_pool
  new-IsSoundPool c id word = elim (Bool-cases c.has_mnr) [
    | inl has ↦ rw has (new_tx_pool-IsSoundPool c word)
    | inr lacks ↦ rw lacks tt
  ]

  pub hndl_chk_blk-IsSoundPool :
      (b : Block) (m : Miner) → IsSoundPool m.tx_p → IsSoundPool (hndl_chk_blk b m).0.tx_p
  unfolding hndl_chk_blk
  hndl_chk_blk-IsSoundPool b m c = chk_txs-IsSoundPool (map some b.transactions) m.tx_p c

  pub hndl_blk-IsSoundPool :
      (b : Option Block) (m : Miner) → IsSoundPool m.tx_p → IsSoundPool (hndl_blk b m).0.tx_p
  unfolding hndl_blk inc_chn_len set_hash
  hndl_blk-IsSoundPool none m c = c
  hndl_blk-IsSoundPool (some b) m c = hndl_chk_blk-IsSoundPool b m c

  pub hndl_tx-IsSoundPool :
      (t : Option Transaction) (m : Miner) → IsSoundPool m.tx_p → IsSoundPool (hndl_tx t m).0.tx_p
  unfolding hndl_tx
  hndl_tx-IsSoundPool none m c = c
  hndl_tx-IsSoundPool (some t) m c = add-IsSoundPool (some t) m.tx_p c

  finish_round-IsSoundPool :
      (found : Bool) (b : Block) (m m' : Miner) (sent : List Sent)
      → finish_round (found, b) m ≡ ok (m', sent)
      → IsSoundPool m.tx_p
      → IsSoundPool m'.tx_p
  unfolding finish_round
  finish_round-IsSoundPool false b m m' sent e c =
      subst (λ (p : Miner × List Sent). IsSoundPool p.0.tx_p) (ok-injective e) c
  finish_round-IsSoundPool true b m m' sent e c =
      let (own, printed, e1) = >>=-eq-ok (fmt_addr m.addr) _ e in
      let (tag, named, e2) = >>=-eq-ok (Block.name_tag b) _ e1 in
      let (text, told, e3) = >>=-eq-ok (Block.summarize b) _ e2 in
      subst (λ (p : Miner × List Sent). IsSoundPool p.0.tx_p) (ok-injective e3)
        (hndl_blk-IsSoundPool (some b) m c)

  mine_round-IsSoundPool :
      (done : ℕ → Bool) (m m' : Miner) (sent : List Sent)
      → mine_round done m ≡ ok (m', sent)
      → IsSoundPool m.tx_p
      → IsSoundPool m'.tx_p
  unfolding mine_round
  mine_round-IsSoundPool done m m' sent e c = elim (if-cases (not (TxPool.pri_met m.tx_p)) _ _ e) [
    | inl poor ↦ subst (λ (p : Miner × List Sent). IsSoundPool p.0.tx_p) (ok-injective poor) c
    | inr mined ↦
        let started : Miner = record m { mining = true; mining_pool = new_mining_pool m } in
        let pool = map some (new_mining_pool m) in
        let (cb, made, e') = >>=-eq-ok (gen_cb_tx pool started) _ mined in
        let (b, built, e'') = >>=-eq-ok (Block.new m.prv_hsh (cb ∷ pool) (dif_trg m)) _ e' in
        let found = calc_nonce done b started in
        finish_round-IsSoundPool found.0 found.1 (record started { mining = false }) m' sent e'' c
  ]

  -- A round of the miner, where it does not panic.
  pub mine-IsSoundPool :
      (done : ℕ → Bool) (m m' : Miner) (sent : List Sent)
      → mine done m ≡ ok (m', sent)
      → IsSoundPool m.tx_p
      → IsSoundPool m'.tx_p
  unfolding mine
  mine-IsSoundPool done m m' sent e c = elim (if-cases (not m.active) _ _ e) [
    | inl idle ↦ subst (λ (p : Miner × List Sent). IsSoundPool p.0.tx_p) (ok-injective idle) c
    | inr active ↦ mine_round-IsSoundPool done m m' sent active c
  ]
