-- ===== src/Miner/TxPool/Sound.antt =====
-- The count and the order of the pool.
use csci1951l_cryptocurrency.Prelude.{
  List, [], ◌∷◌, map, false, Option, none, some, ◌≡◌, refl, sym, ap, ◌∙◌, subst, Bool-cases, inl,
  inr, leb,
}
use csci1951l_cryptocurrency.Prelude.Word.{sub32}
use csci1951l_cryptocurrency.Crypto.{Crypto}
use csci1951l_cryptocurrency.Tx.{Transaction}
use csci1951l_cryptocurrency.Tx.Heap
use csci1951l_cryptocurrency.Tx.Heap.Order.{IsHeap}
use csci1951l_cryptocurrency.Tx.Heap.Removal.{rmv_refines}
use csci1951l_cryptocurrency.Tx.Heap.Up.{push_lem}
use csci1951l_cryptocurrency.Miner.TxPool.{TxPool, calc_pri, add, has_nil, forget, chk_txs}
use csci1951l_cryptocurrency.Miner.TxPool.Count.{
  IsCounted, add-IsCounted, chk_txs-IsCounted, wrapped,
}

-- The pool counts its entries, and its queue is a heap.
pub record IsSoundPool (tp : TxPool) : Type 0 where
  pub counts : IsCounted tp
  pub order : IsHeap tp.tx_q

pub add-IsHeap : (t : Option Transaction) (tp : TxPool) → IsHeap tp.tx_q → IsHeap (add t tp).tx_q
unfolding add Heap.add
add-IsHeap none tp order = order
add-IsHeap (some t) tp order = elim (Bool-cases (leb tp.cap tp.ct)) [
  | inl full ↦ rw full order
  | inr room ↦ rw room (push_lem (record { p = calc_pri (some t); t = t }) tp.tx_q order).0
]

-- Adding a transaction, nil or not, keeps the count of the pool the number of entries of its queue
-- and within the capacity, and the queue a heap: no entry has a larger priority than its parent.
pub add-IsSoundPool :
    (t : Option Transaction) (tp : TxPool) → IsSoundPool tp → IsSoundPool (add t tp)
add-IsSoundPool t tp s = record {
  counts = add-IsCounted t tp s.counts;
  order = add-IsHeap t tp s.order;
}

pub tx_q-forget : (txs : List Transaction) (tp : TxPool) → (forget txs tp).tx_q ≡ tp.tx_q
unfolding forget
tx_q-forget [] tp = refl
tx_q-forget (t ∷ txs) tp =
    tx_q-forget txs
      (record tp { cur_pri = sub32 tp.cur_pri (calc_pri (some t)); ct = sub32 tp.ct 1 })

module _ ⦃crypto : Crypto⦄ where
  whole-IsHeap :
      (ts : List Transaction) (tp : TxPool)
      → has_nil (map some ts) ≡ false
      → IsHeap (chk_txs (map some ts) tp).tx_q
  unfolding chk_txs
  whole-IsHeap ts tp whole = rw whole (
      subst IsHeap (sym (tx_q-forget (Heap.rmv (map some ts) tp.tx_q).0 _))
        (rmv_refines ts tp.tx_q).1)

  pub chk_txs-IsHeap :
      (remover : List (Option Transaction)) (tp : TxPool)
      → IsHeap tp.tx_q
      → IsHeap (chk_txs remover tp).tx_q
  unfolding chk_txs
  chk_txs-IsHeap remover tp order = elim (Bool-cases (has_nil remover)) [
    | inl has ↦ rw has order
    | inr whole ↦
        let (ts, same) = wrapped remover whole in
        subst (λ us. IsHeap (chk_txs us tp).tx_q) (sym same)
          (whole-IsHeap ts tp (ap has_nil (sym same) ∙ whole))
  ]

  -- Removing the transactions of a block, nil ones or not, keeps the count of the pool the number of
  -- entries of its queue and within the capacity, and the queue a heap.
  pub chk_txs-IsSoundPool :
      (remover : List (Option Transaction)) (tp : TxPool)
      → IsSoundPool tp
      → IsSoundPool (chk_txs remover tp)
  chk_txs-IsSoundPool remover tp s = record {
    counts = chk_txs-IsCounted remover tp s.counts;
    order = chk_txs-IsHeap remover tp s.order;
  }
