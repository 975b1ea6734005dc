-- ===== src/Wallet/LiminalTxs.antt =====
-- BrunoCoin/pkg/wallet/liminal_txs.go. The lock is held during both methods.
use csci1951l_cryptocurrency.Prelude.{ℕ, List, Option}
use csci1951l_cryptocurrency.Crypto.{Crypto}
use csci1951l_cryptocurrency.Tx.{Transaction}
use csci1951l_cryptocurrency.Tx.Heap
use csci1951l_cryptocurrency.Tx.Heap.{Heap}
use csci1951l_cryptocurrency.Wallet.Config.{Config}

pub record LiminalTxs : Type 0 where
  pub tx_q : Heap
  pub tx_rply_thresh : ℕ

unfoldable pub new_lmnl_txs : Config → LiminalTxs
new_lmnl_txs c = record { tx_q = Heap.new_tx_heap; tx_rply_thresh = c.tx_rply_thresh }

unfoldable pub add : Option Transaction → LiminalTxs → LiminalTxs
add t l = record l { tx_q = Heap.add 0 t l.tx_q }

module _ ⦃crypto : Crypto⦄ where
  -- The transactions to send again, the duplicates, and the queue without both.
  unfoldable pub chk_txs :
      List (Option Transaction) → LiminalTxs → List Transaction × List Transaction × LiminalTxs
  chk_txs txs l =
      let (duplicates, q) = Heap.rmv txs l.tx_q in
      let (removed, q') = Heap.rem_abv l.tx_rply_thresh (Heap.inc_all q) in
      (removed, duplicates, record l { tx_q = q' })
