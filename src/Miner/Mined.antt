-- ===== src/Miner/Mined.antt =====
-- A round of the miner that sends a block.
pub mod Tests
use csci1951l_cryptocurrency.Prelude.{
  ℕ, List, [], ◌∷◌, map, Bool, true, false, some, ◌≡◌, refl, sym, ap, ap₂, ◌∙◌, subst, arith,
  Bool-cases, inl, inr,
}
use csci1951l_cryptocurrency.Prelude.Result.{ok, ◌>>=◌, >>=-eq-ok, ok-injective}
use csci1951l_cryptocurrency.Utils.Logging.{fmt_addr}
use csci1951l_cryptocurrency.Crypto.{Crypto}
use csci1951l_cryptocurrency.Tx.{Transaction}
use csci1951l_cryptocurrency.Block
use csci1951l_cryptocurrency.Block.{Block}
use csci1951l_cryptocurrency.Block.Made.{new_nil, new_lem}
use csci1951l_cryptocurrency.Block.RoundTrip.{unmark_tx}
use csci1951l_cryptocurrency.Miner.{
  Miner, Sent, send_blk, reward_of, gen_cb_tx, hndl_chk_blk, hndl_blk, set_hash, inc_chn_len,
  new_mining_pool, dif_trg, calc_nonce, finish_round, mine_round,
}
use csci1951l_cryptocurrency.Miner.TxPool
use csci1951l_cryptocurrency.Miner.Coinbase.{IsCoinbase, gen_cb_tx_lem}
use csci1951l_cryptocurrency.Miner.Work.{calc_nonce_found}

module _ ⦃crypto : Crypto⦄ where
  -- What a miner made of its mining pool.
  pub record IsMined (m : Miner) (b : Block) : Type 0 where
    pub cb : Transaction
    pub rewarded : IsCoinbase m (new_mining_pool m) cb
    pub split : b.transactions ≡ cb ∷ map unmark_tx (new_mining_pool m)
    pub after : b.hdr.prv_blk_hsh ≡ m.prv_hsh
    pub target : b.hdr.diff_targ ≡ dif_trg m
    pub work : Block.satisfies_pow b (dif_trg m) ≡ true

  -- Only a block that was found is sent, and it becomes the block before the next one.
  finish_round_sent :
      (found : Bool) (b c : Block) (m m' : Miner) (sent : List Sent)
      → finish_round (found, b) m ≡ ok (m', send_blk c ∷ sent)
      → (found ≡ true) × (b ≡ c) × (m'.prv_hsh ≡ Block.hash c)
  unfolding finish_round hndl_blk hndl_chk_blk set_hash inc_chn_len
  finish_round_sent false b c m m' sent e = absurd (ground (arith, e))
  finish_round_sent true b c m m' sent e =
      let (own, e1, e') = >>=-eq-ok (fmt_addr m.addr) _ e in
      let (tag, e2, e'') = >>=-eq-ok (Block.name_tag b) _ e' in
      let (text, e3, ends) = >>=-eq-ok (Block.summarize b) _ e'' in
      let sent' = ok-injective ends in
      let told = ap (λ p. p.1) sent' in
      let same : b ≡ c = cc in (refl, same, sym (ap (λ p. p.0.prv_hsh) sent') ∙ ap Block.hash same)

  -- What the round has set does not change the reward.
  IsCoinbase-started :
      (m : Miner) (pool txs : List Transaction) (cb : Transaction)
      → IsCoinbase (record m { mining = true; mining_pool = pool }) txs cb
      → IsCoinbase m txs cb
  unfolding reward_of
  IsCoinbase-started m pool txs cb c = record {
    coinbase = c.coinbase;
    pays = c.pays;
    size = c.size;
    unmarked = c.unmarked;
    unclaimed = c.unclaimed;
    exact = c.exact;
  }

  -- A block with a nonce that was found is as `New` made it, but for the nonce.
  found-IsMined :
      (done : ℕ → Bool) (m : Miner) (pool : List Transaction) (cb : Transaction) (c b : Block)
      → new_mining_pool m ≡ pool
      → IsCoinbase (record m { mining = true; mining_pool = pool }) pool cb
      → c.hdr.prv_blk_hsh ≡ m.prv_hsh
      → c.hdr.diff_targ ≡ dif_trg m
      → c.transactions ≡ unmark_tx cb ∷ map unmark_tx pool
      → calc_nonce done c (record m { mining = true; mining_pool = pool }) ≡ (true, b)
      → IsMined m b
  unfolding dif_trg
  found-IsMined done m pool cb c b e rewarded after target txs found =
      let (j, below, is_nonce, works, first) = calc_nonce_found done c b _ found in
      record {
        cb = cb;
        rewarded =
            subst (λ p. IsCoinbase m p cb) (sym e) (IsCoinbase-started m pool pool cb rewarded);
        split =
            ap (λ (x : Block). x.transactions) is_nonce
            ∙ txs
            ∙ ap₂ (λ x p. x ∷ map unmark_tx p) rewarded.unmarked (sym e);
        after = ap (λ (x : Block). x.hdr.prv_blk_hsh) is_nonce ∙ after;
        target = ap (λ (x : Block). x.hdr.diff_targ) is_nonce ∙ target;
        work = works;
      }

  round-IsMined :
      (done : ℕ → Bool) (m m' : Miner) (pool : List Transaction) (b : Block) (sent : List Sent)
      → new_mining_pool m ≡ pool
      → (do
        cb ← gen_cb_tx (map some pool) (record m { mining = true; mining_pool = pool })
        c ← Block.new m.prv_hsh (cb ∷ map some pool) (dif_trg m)
        finish_round
            (calc_nonce done c (record m { mining = true; mining_pool = pool }))
            (record m { mining = false; mining_pool = pool }))
        ≡ ok (m', send_blk b ∷ sent)
      → IsMined m b × (m'.prv_hsh ≡ Block.hash b)
  unfolding gen_cb_tx
  round-IsMined done m m' [] b sent e p = absurd (ground (arith, rw (gen_cb_tx, new_nil) at p))
  round-IsMined done m m' (t ∷ ts) b sent e p =
      let started = record m { mining = true; mining_pool = t ∷ ts } in
      let (made, is_cb, p') = >>=-eq-ok (gen_cb_tx (some t ∷ map some ts) started) _ p in
      let (cb, same_cb, rewarded) = gen_cb_tx_lem t ts started made is_cb in
      let (c, is_new, after, target, txs) = new_lem m.prv_hsh cb (t ∷ ts) (dif_trg m) in
      let found = calc_nonce done c started in
      let (is_found, same, linked) =
        finish_round_sent found.0 found.1 b _ m' sent (rw (same_cb, is_new) at p') in
      (
        found-IsMined done m (t ∷ ts) cb c b e rewarded after target txs
            (ap₂ (λ x y. (x, y)) is_found same),
        linked,
      )

  -- A block that a round sends was made of the mining pool, and is the one before the next.
  pub mine_round_lem :
      (done : ℕ → Bool) (m m' : Miner) (b : Block) (sent : List Sent)
      → mine_round done m ≡ ok (m', send_blk b ∷ sent)
      → IsMined m b × (m'.prv_hsh ≡ Block.hash b)
  unfolding mine_round
  mine_round_lem done m m' b sent e = elim (Bool-cases (TxPool.pri_met m.tx_p)) [
    | inl met ↦ round-IsMined done m m' (new_mining_pool m) b sent refl (rw met at e)
    | inr unmet ↦ absurd (ground (arith, rw unmet at e))
  ]
