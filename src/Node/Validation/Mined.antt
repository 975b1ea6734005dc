-- ===== src/Node/Validation/Mined.antt =====
-- A node checks a block that its own miner, or that of a node with the same chain, made.
use csci1951l_cryptocurrency.Prelude.{
  ℕ, ◌+◌, ◌<◌, ◌≤◌, Bool, List, [], ◌∷◌, map, true, some, ◌≡◌, sym, ap, ◌∙◌, subst, arith, All, ltb,
}
use csci1951l_cryptocurrency.Prelude.Word.{u32_mod}
use csci1951l_cryptocurrency.Prelude.Result.{ok}
use csci1951l_cryptocurrency.Crypto.{Crypto}
use csci1951l_cryptocurrency.Proto
use csci1951l_cryptocurrency.Tx
use csci1951l_cryptocurrency.Tx.{Transaction, sum_inputs, sum_outputs}
use csci1951l_cryptocurrency.Tx.Sums.{sum_sizes, sum_outputs-unmark}
use csci1951l_cryptocurrency.Block
use csci1951l_cryptocurrency.Block.{Block, satisfies_pow}
use csci1951l_cryptocurrency.Block.Made.{serialize-unmark_tx, sz_lem}
use csci1951l_cryptocurrency.Block.RoundTrip.{unmark_tx}
use csci1951l_cryptocurrency.Blockchain.{chk_chains_utxo}
use csci1951l_cryptocurrency.Blockchain.Unmarked.{chk_chains_utxo-unmark}
use csci1951l_cryptocurrency.Miner.{Miner, Sent, send_blk, reward_of, new_mining_pool, mine_round}
use csci1951l_cryptocurrency.Miner.Mined.{mine_round_lem}
use csci1951l_cryptocurrency.Miner.Work.{in_order, sum_fits, new_mining_pool_lem}
use csci1951l_cryptocurrency.Node.{Node}
use csci1951l_cryptocurrency.Node.Validation.{chk_blk}
use csci1951l_cryptocurrency.Node.Validation.Blocks.{chk_blk_pays}
use csci1951l_cryptocurrency.Node.Validation.Transactions.{IsSpendable}

module _ ⦃crypto : Crypto⦄ where
  sz-unmark_tx : (t : Transaction) → Tx.sz (unmark_tx t) ≡ Tx.sz t
  unfolding Tx.sz
  sz-unmark_tx t = ap Proto.sz_of_tx (serialize-unmark_tx t)

  IsSpendable-unmark : (n : Node) (t : Transaction) → IsSpendable n t → IsSpendable n (unmark_tx t)
  unfolding sum_inputs
  IsSpendable-unmark n t s = record {
    pays = subst (λ a. 0 < a) (sym (sum_outputs-unmark t)) s.pays;
    covered = subst (λ a. a ≤ sum_inputs t) (sym (sum_outputs-unmark t)) s.covered;
    unlocked = s.unlocked;
    fits = subst (λ a. a ≤ n.conf.mx_blk_sz) (sym (sz-unmark_tx t)) s.fits;
  }

  All-unmark :
      (n : Node) (txs : List Transaction)
      → All (IsSpendable n) txs
      → All (IsSpendable n) (map unmark_tx txs)
  All-unmark n [] all = tt
  All-unmark n (t ∷ txs) all = (IsSpendable-unmark n t all.0, All-unmark n txs all.1)

  -- A miner's round sends a block, and the transactions of its mining pool are spendable at a node
  -- and unspent after the miner's last block. Where the sizes of the whole pool and 100 bytes are
  -- together below 2 ^ 32, and the miner's block size is above 100 and no more than the node's,
  -- which is below 2 ^ 32, the node accepts the block exactly if its fees and minting reward are together more than 0, and
  -- the block becomes the one before the next that is mined.
  pub mine_round_accepted :
      (done : ℕ → Bool) (m m' : Miner) (b : Block) (sent : List Sent) (n : Node)
      → mine_round done m ≡ ok (m', send_blk b ∷ sent)
      → All (IsSpendable n) (new_mining_pool m)
      → chk_chains_utxo (new_mining_pool m) m.prv_hsh n.chain ≡ true
      → 100 + sum_sizes (in_order m.tx_p.tx_q) < u32_mod
      → 100 < m.conf.blk_sz
      → m.conf.blk_sz ≤ n.conf.mx_blk_sz
      → n.conf.mx_blk_sz < u32_mod
      → (chk_blk (some b) n ≡ ok (ltb 0 (reward_of (new_mining_pool m) m)))
        × (m'.prv_hsh ≡ Block.hash b)
  mine_round_accepted done m m' b sent n e spendable unspent small room size word =
      let (mined, linked) = mine_round_lem done m m' b sent e in
      let pool = new_mining_pool m in
      let front = new_mining_pool_lem m small in
      let fits : 100 + sum_sizes pool < m.conf.blk_sz =
        sum_fits 100 m.conf.blk_sz pool room front.fits in
      (
        chk_blk_pays b n mined.cb (map unmark_tx pool) (72 + sum_sizes pool) mined.split
              mined.rewarded.coinbase
              (ap (λ h. chk_chains_utxo (map unmark_tx pool) h n.chain) mined.after
                ∙ chk_chains_utxo-unmark pool m.prv_hsh n.chain
                ∙ unspent)
              (All-unmark n pool spendable) (ap (satisfies_pow b) mined.target ∙ mined.work)
              (sz_lem b (mined.cb ∷ pool)
                  (mined.split ∙ ap (λ c. c ∷ map unmark_tx pool) (sym mined.rewarded.unmarked))
                  (omega (arith, fits, size, word, mined.rewarded.size))
                ∙ ap ok (omega (arith, mined.rewarded.size)))
              (omega (arith, fits, size)) (omega (arith, mined.rewarded.size))
            ∙ ap (λ a. ok (ltb 0 a)) mined.rewarded.pays,
        linked,
      )
