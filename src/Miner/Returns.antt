-- ===== src/Miner/Returns.antt =====
-- A round of the miner ends without a panic.
use csci1951l_cryptocurrency.Prelude.{
  ℕ, ◌≤◌, ◌<◌, List, [], ◌∷◌, map, Bool, true, false, Option, some, ◌≡◌, ◌⊎◌, refl, sym, ap, ap₂,
  ◌∙◌, subst, length, Bool-cases, inl, inr,
}
use csci1951l_cryptocurrency.Prelude.Result.{ok}
use csci1951l_cryptocurrency.Text.{Bytes}
use csci1951l_cryptocurrency.Utils.Logging.{fmt_addr}
use csci1951l_cryptocurrency.Crypto.{Crypto, IsSum256}
use csci1951l_cryptocurrency.Tx.{Transaction}
use csci1951l_cryptocurrency.Block
use csci1951l_cryptocurrency.Block.{Block}
use csci1951l_cryptocurrency.Block.Made.{new_lem}
use csci1951l_cryptocurrency.Block.NameTag.{block_tag_returns, summarize_returns}
use csci1951l_cryptocurrency.Miner.{
  Miner, Sent, send_blk, gen_cb_tx, hndl_blk, new_mining_pool, dif_trg, calc_nonce, finish_round,
  mine_round,
}
use csci1951l_cryptocurrency.Miner.TxPool
use csci1951l_cryptocurrency.Miner.Coinbase.{gen_cb_tx_lem, gen_cb_tx_returns}
use csci1951l_cryptocurrency.Miner.Mined.{IsMined, mine_round_lem}
use csci1951l_cryptocurrency.Miner.Work.{calc_nonce_found}

module _ ⦃crypto : Crypto⦄ where
  -- The end of a round: nothing is sent, or the block that was found is.
  Ended : Bool → Block → Miner → Type 0
  Ended found b m =
      (m' : Miner) × (sent : List Sent) × (finish_round (found, b) m ≡ ok (m', sent))
      × ((sent ≡ []) ⊎ ((rest : List Sent) × (sent ≡ send_blk b ∷ rest)))

  finish_round_returns :
      (found : Bool) (b : Block) (m : Miner) (text : Bytes)
      → IsSum256
      → fmt_addr m.addr ≡ ok text
      → (found ≡ true → 10 ≤ length b.hdr.prv_blk_hsh)
      → Ended found b m
  unfolding Ended finish_round
  finish_round_returns false b m text law printed long = (m, [], refl, inl refl)
  finish_round_returns true b m text law printed long =
      let (tag, named) = block_tag_returns law b in
      let (summary, told) = summarize_returns law b (long refl) in
      let (m', sent) = hndl_blk (some b) m in
      (m', send_blk b ∷ sent, rw (printed, named, told), inr (sent, refl))

  -- The steps of a round, one after the other.
  mine_round_steps :
      (done : ℕ → Bool) (m m' : Miner) (t : Transaction) (ts : List Transaction)
      (made : Option Transaction) (c : Block) (sent : List Sent)
      → TxPool.pri_met m.tx_p ≡ true
      → new_mining_pool m ≡ t ∷ ts
      → gen_cb_tx (some t ∷ map some ts) (record m { mining = true; mining_pool = t ∷ ts })
        ≡ ok made
      → Block.new m.prv_hsh (made ∷ some t ∷ map some ts) (dif_trg m) ≡ ok c
      → finish_round
          (calc_nonce done c (record m { mining = true; mining_pool = t ∷ ts }))
          (record m { mining = false; mining_pool = t ∷ ts })
        ≡ ok (m', sent)
      → mine_round done m ≡ ok (m', sent)
  unfolding mine_round
  mine_round_steps done m m' t ts made c sent met pool is_made is_new ends =
      rw (met, pool, is_made, is_new) ends

  -- A mining pool that is not empty, after the tests on the pool.
  round_ends :
      (done : ℕ → Bool) (m : Miner) (t : Transaction) (ts : List Transaction) (text : Bytes)
      → IsSum256
      → new_mining_pool m ≡ t ∷ ts
      → 0 < m.conf.subsdy_hlv_rt
      → fmt_addr m.addr ≡ ok text
      → 10 ≤ length m.prv_hsh
      → TxPool.pri_met m.tx_p ≡ true
      → (b : Block) × (m' : Miner) × (sent : List Sent) × (mine_round done m ≡ ok (m', sent))
        × ((sent ≡ []) ⊎ ((rest : List Sent) × (sent ≡ send_blk b ∷ rest)))
  unfolding dif_trg Ended
  round_ends done m t ts text law pool halves printed long met =
      let started = record m { mining = true; mining_pool = t ∷ ts } in
      let (made, is_made) = gen_cb_tx_returns t ts started halves in
      let (cb, is_cb, rewarded) = gen_cb_tx_lem t ts started made is_made in
      let (c, is_new, after, target, txs) = new_lem m.prv_hsh cb (t ∷ ts) (dif_trg m) in
      let found = calc_nonce done c started in
      let keeps : found.0 ≡ true → 10 ≤ length found.1.hdr.prv_blk_hsh = λ is_found.
        let (j, below, is_nonce, works, first) =
          calc_nonce_found done c found.1 started (ap₂ (λ x y. (x, y)) is_found refl) in
        subst (λ h. 10 ≤ length h) (sym (ap (λ (x : Block). x.hdr.prv_blk_hsh) is_nonce ∙ after))
          long in
      let (m', sent, ends, what) =
        finish_round_returns found.0 found.1 (record started { mining = false }) text law printed
          keeps in
      let is_built =
        subst (λ x. Block.new m.prv_hsh (x ∷ some t ∷ map some ts) (dif_trg m) ≡ ok c) (sym is_cb)
          is_new in
      (
        found.1,
        m',
        sent,
        mine_round_steps done m m' t ts made c sent met pool is_made is_built ends,
        what,
      )

  poor :
      (done : ℕ → Bool) (m : Miner) → TxPool.pri_met m.tx_p ≡ false → mine_round done m ≡ ok (m, [])
  unfolding mine_round
  poor done m unmet = rw unmet

  -- Where the hashes have 32 bytes, the mining pool is not empty, the halving rate is not 0, the own
  -- address has a text in the messages and the hash of the last block has ten characters or more, a
  -- round returns, whenever it is interrupted: it sends nothing, or a block made of the mining pool,
  -- which is then the block before the next.
  pub mine_round_returns :
      (done : ℕ → Bool) (m : Miner) (t : Transaction) (ts : List Transaction) (text : Bytes)
      → IsSum256
      → new_mining_pool m ≡ t ∷ ts
      → 0 < m.conf.subsdy_hlv_rt
      → fmt_addr m.addr ≡ ok text
      → 10 ≤ length m.prv_hsh
      → (m' : Miner) × (sent : List Sent) × (mine_round done m ≡ ok (m', sent))
        × ((sent ≡ [])
            ⊎ ((b : Block) × (rest : List Sent) × (sent ≡ send_blk b ∷ rest)
                × IsMined m b
                × (m'.prv_hsh ≡ Block.hash b)))
  mine_round_returns done m t ts text law pool halves printed long =
      elim (Bool-cases (TxPool.pri_met m.tx_p)) [
        | inr unmet ↦ (m, [], poor done m unmet, inl refl)
        | inl met ↦
            let (b, m', sent, ends, what) =
              round_ends done m t ts text law pool halves printed long met in
            (
              m',
              sent,
              ends,
              elim what [
                | inl nothing ↦ inl nothing
                | inr (rest, same) ↦
                    let (mined, linked) =
                      mine_round_lem done m m' b rest
                        (ends ∙ ap (λ (x : List Sent). ok (m', x)) same) in
                    inr (b, rest, same, mined, linked)
              ],
            )
      ]
