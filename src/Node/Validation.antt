-- ===== src/Node/Validation.antt =====
-- BrunoCoin/pkg/validation.go. A slice of a wrapped block or transaction is never nil, so the tests
-- against nil slices are always passed and not written.
pub mod Mined
pub mod Transactions
pub mod Blocks
pub mod Unbacked
pub mod Overflow
use csci1951l_cryptocurrency.Prelude.{
  List, [], ◌∷◌, Bool, true, false, not, Option, none, some, ltb, ◌==◌, if◌then◌else◌,
}
use csci1951l_cryptocurrency.Prelude.Result.{Result, ok, ◌>>=◌}
use csci1951l_cryptocurrency.Crypto.{Crypto}
use csci1951l_cryptocurrency.Tx
use csci1951l_cryptocurrency.Tx.{Transaction, sum_inputs, sum_outputs, is_coinbase}
use csci1951l_cryptocurrency.Tx.Txi.{TransactionInput}
use csci1951l_cryptocurrency.Tx.Txo.{is_unlckd}
use csci1951l_cryptocurrency.Block
use csci1951l_cryptocurrency.Block.{Block, satisfies_pow}
use csci1951l_cryptocurrency.Blockchain.{Blockchain, is_invalid_input, get_utxo, chk_chains_utxo}
use csci1951l_cryptocurrency.Node.{Node}

module _ ⦃crypto : Crypto⦄ where
  -- One round of the loop of `ChkTx`.
  unfoldable pub chk_input : TransactionInput → Blockchain → Result Bool
  chk_input utxo chain =
      if is_invalid_input utxo chain then ok false else elim (get_utxo utxo chain) [
        | none ↦ ok false
        | some o ↦ is_unlckd o utxo.unlocking_script
      ]

  unfoldable pub chk_inputs : List TransactionInput → Blockchain → Result Bool
  chk_inputs [] chain = ok true
  chk_inputs (utxo ∷ ins) chain = do
    valid ← chk_input utxo chain
    let rest = chk_inputs ins chain
    if valid then rest else ok false

  unfoldable pub chk_tx : Option Transaction → Node → Result Bool
  chk_tx none n = ok false
  chk_tx (some t) n =
      if sum_outputs t == 0
      then ok false
      else if ltb (sum_inputs t) (sum_outputs t)
      then ok false
      else do
        unlocked ← chk_inputs t.inputs n.chain
        ok (if not unlocked then false else if ltb n.conf.mx_blk_sz (Tx.sz t) then false else true)

  -- The loop of `ChkBlk`, which prints a transaction that it refuses.
  unfoldable pub chk_all : List Transaction → Node → Result Bool
  chk_all [] n = ok true
  chk_all (t ∷ txs) n = do
    valid ← chk_tx (some t) n
    let rest = chk_all txs n
    if valid then rest else (do tag ← Tx.name_tag t; ok false)

  -- The tests of `ChkBlk` after the loop.
  unfoldable pub chk_blk_end : Transaction → Block → Node → Result Bool
  chk_blk_end cb b n = do
    size ← Block.sz b
    ok (
        if ltb n.conf.mx_blk_sz size
        then false
        else if not (satisfies_pow b b.hdr.diff_targ)
        then false
        else if sum_outputs cb == 0
        then false
        else if ltb n.conf.mx_blk_sz (Tx.sz cb)
        then false
        else true)

  -- `ChkBlk` on the transactions of a block.
  chk_blk_txs : List Transaction → Block → Node → Result Bool
  chk_blk_txs [] b n = ok false
  chk_blk_txs (cb ∷ txs) b n =
      if not (is_coinbase cb)
      then ok false
      else if not (chk_chains_utxo txs b.hdr.prv_blk_hsh n.chain)
      then ok false
      else do valid ← chk_all txs n; if not valid then ok false else chk_blk_end cb b n

  unfoldable pub chk_blk : Option Block → Node → Result Bool
  unfolding chk_blk_txs
  chk_blk none n = ok false
  chk_blk (some b) n = chk_blk_txs b.transactions b n
