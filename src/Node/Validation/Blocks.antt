-- ===== src/Node/Validation/Blocks.antt =====
-- What `ChkBlk` accepts.
use csci1951l_cryptocurrency.Prelude.{
  ℕ, ◌≤◌, ◌<◌, List, [], ◌∷◌, true, false, some, ◌≡◌, refl, ap, ◌∙◌, arith, All, ltb,
}
use csci1951l_cryptocurrency.Prelude.Result.{ok}
use csci1951l_cryptocurrency.Crypto.{Crypto}
use csci1951l_cryptocurrency.Tx
use csci1951l_cryptocurrency.Tx.{Transaction, sum_outputs, is_coinbase}
use csci1951l_cryptocurrency.Block
use csci1951l_cryptocurrency.Block.{Block, satisfies_pow}
use csci1951l_cryptocurrency.Blockchain.{chk_chains_utxo}
use csci1951l_cryptocurrency.Blockchain.Inputs.{AreIn, utxo_after}
use csci1951l_cryptocurrency.Node.{Node}
use csci1951l_cryptocurrency.Node.Validation.{chk_all, chk_blk_end, chk_blk_txs, chk_blk}
use csci1951l_cryptocurrency.Node.Validation.Transactions.{IsSpendable, chk_tx_iff}

module _ ⦃crypto : Crypto⦄ where
  -- What `ChkBlk` asks of a block with the transactions `cb ∷ txs`.
  pub record IsMinable (n : Node) (b : Block) (cb : Transaction) (txs : List Transaction)
      : Type 0 where
    pub split : b.transactions ≡ cb ∷ txs
    pub coinbase : is_coinbase cb ≡ true
    pub unspent : AreIn (utxo_after b.hdr.prv_blk_hsh n.chain) txs
    pub spendable : All (IsSpendable n) txs
    pub work : satisfies_pow b b.hdr.diff_targ ≡ true
    pub rewards : 0 < sum_outputs cb
    pub size : ℕ
    pub measured : Block.sz b ≡ ok size
    pub fits : size ≤ n.conf.mx_blk_sz
    pub cb_fits : Tx.sz cb ≤ n.conf.mx_blk_sz

  IsSpendable-chk_all :
      (txs : List Transaction) (n : Node) → All (IsSpendable n) txs → chk_all txs n ≡ ok true
  unfolding chk_all
  IsSpendable-chk_all [] n all = refl
  IsSpendable-chk_all (t ∷ txs) n all =
      rw ((chk_tx_iff t n).1 all.0, IsSpendable-chk_all txs n all.1)

  chk_blk_end_pays :
      (cb : Transaction) (b : Block) (n : Node) (size : ℕ)
      → satisfies_pow b b.hdr.diff_targ ≡ true
      → Block.sz b ≡ ok size
      → size ≤ n.conf.mx_blk_sz
      → Tx.sz cb ≤ n.conf.mx_blk_sz
      → chk_blk_end cb b n ≡ ok (ltb 0 (sum_outputs cb))
  unfolding chk_blk_end
  chk_blk_end_pays cb b n size work measured fits inside =
      let small : ltb n.conf.mx_blk_sz size ≡ false = ground (arith, fits) in
      let cb_fits : ltb n.conf.mx_blk_sz (Tx.sz cb) ≡ false = ground (arith, inside) in
      rw (measured, small, work, cb_fits) (ap ok (ground arith))

  chk_blk_txs_pays :
      (b : Block) (n : Node) (cb : Transaction) (txs : List Transaction)
      → is_coinbase cb ≡ true
      → chk_chains_utxo txs b.hdr.prv_blk_hsh n.chain ≡ true
      → All (IsSpendable n) txs
      → chk_blk_txs (cb ∷ txs) b n ≡ chk_blk_end cb b n
  unfolding chk_blk_txs
  chk_blk_txs_pays b n cb txs coinbase unspent spendable =
      rw (coinbase, unspent, IsSpendable-chk_all txs n spendable)

  -- A block that passes every other test is accepted if its coinbase transaction pays something.
  pub chk_blk_pays :
      (b : Block) (n : Node) (cb : Transaction) (txs : List Transaction) (size : ℕ)
      → b.transactions ≡ cb ∷ txs
      → is_coinbase cb ≡ true
      → chk_chains_utxo txs b.hdr.prv_blk_hsh n.chain ≡ true
      → All (IsSpendable n) txs
      → satisfies_pow b b.hdr.diff_targ ≡ true
      → Block.sz b ≡ ok size
      → size ≤ n.conf.mx_blk_sz
      → Tx.sz cb ≤ size
      → chk_blk (some b) n ≡ ok (ltb 0 (sum_outputs cb))
  unfolding chk_blk
  chk_blk_pays b n cb txs size split coinbase unspent spendable work measured fits inside =
      ap (λ ts. chk_blk_txs ts b n) split
      ∙ chk_blk_txs_pays b n cb txs coinbase unspent spendable
      ∙ chk_blk_end_pays cb b n size work measured fits (omega (arith, fits, inside))
