-- ===== src/Miner/TxPool/Pooled.antt =====
-- A transaction that the miner gets is in its pool, if there is room.
use csci1951l_cryptocurrency.Prelude.{◌<◌, true, false, some, ◌≡◌, arith, leb}
use csci1951l_cryptocurrency.Crypto.{Crypto}
use csci1951l_cryptocurrency.Tx.{Transaction}
use csci1951l_cryptocurrency.Tx.Heap
use csci1951l_cryptocurrency.Tx.Heap.Contents.{has-add}
use csci1951l_cryptocurrency.Miner
use csci1951l_cryptocurrency.Miner.{Miner}
use csci1951l_cryptocurrency.Miner.TxPool.{TxPool, calc_pri, add}

-- The pool takes one transaction more.
abbrev pub HasRoom : TxPool → Type 0
HasRoom tp = tp.ct < tp.cap

module _ ⦃crypto : Crypto⦄ where
  -- The transaction is found in the queue.
  abbrev pub IsPooled : Transaction → TxPool → Type 0
  IsPooled t tp = Heap.has (some t) tp.tx_q ≡ true

  add-IsPooled : (t : Transaction) (tp : TxPool) → HasRoom tp → IsPooled t (add (some t) tp)
  unfolding add
  add-IsPooled t tp room =
      let free : leb tp.cap tp.ct ≡ false = ground arith in
      rw free (has-add (calc_pri (some t)) t tp.tx_q)

  pub hndl_tx-IsPooled :
      (t : Transaction) (m : Miner) → HasRoom m.tx_p → IsPooled t (Miner.hndl_tx (some t) m).0.tx_p
  unfolding Miner.hndl_tx
  hndl_tx-IsPooled t m room = add-IsPooled t m.tx_p room
