-- ===== src/Miner/TxPool/Count.antt =====
-- The count of the pool.
use csci1951l_cryptocurrency.Prelude.{
  ℕ, ◌+◌, ◌≤◌, ◌<◌, List, [], ◌∷◌, map, true, false, Option, none, some, ◌≡◌, refl, sym, ap, subst,
  ◌∙◌, arith, length, Bool-cases, inl, inr, leb,
}
use csci1951l_cryptocurrency.Prelude.Word.{u32_mod, sub32}
use csci1951l_cryptocurrency.Crypto.{Crypto}
use csci1951l_cryptocurrency.Tx.{Transaction}
use csci1951l_cryptocurrency.Tx.Heap
use csci1951l_cryptocurrency.Tx.Heap.{Heap}
use csci1951l_cryptocurrency.Tx.Heap.Length.{length-push, length-rmv}
use csci1951l_cryptocurrency.Miner.TxPool.{TxPool, calc_pri, add, has_nil, forget, chk_txs}

-- The count is the number of entries of the queue, and within the capacity, which is a uint32.
pub record IsCounted (tp : TxPool) : Type 0 where
  pub counted : tp.ct ≡ length tp.tx_q
  pub bounded : tp.ct ≤ tp.cap
  pub word : tp.cap < u32_mod

length-add : (p : ℕ) (t : Transaction) (q : Heap) → length (Heap.add p (some t) q) ≡ length q + 1
unfolding Heap.add
length-add p t q = length-push (record { p = p; t = t }) q

-- Adding a transaction, nil or not, keeps the count that of the queue, and within the capacity.
pub add-IsCounted : (t : Option Transaction) (tp : TxPool) → IsCounted tp → IsCounted (add t tp)
unfolding add
add-IsCounted none tp c = c
add-IsCounted (some t) tp c = elim (Bool-cases (leb tp.cap tp.ct)) [
  | inl full ↦ rw full c
  | inr room ↦
      let less : tp.ct < tp.cap = ground arith in
      rw room (record {
        counted = omega (arith, c.counted, c.word, length-add (calc_pri (some t)) t tp.tx_q);
        bounded = omega (arith, c.word);
        word = c.word;
      })
]

forget_lem :
    (txs : List Transaction) (tp : TxPool)
    → length txs ≤ tp.ct
    → tp.ct < u32_mod
    → ((forget txs tp).ct + length txs ≡ tp.ct)
      × ((forget txs tp).tx_q ≡ tp.tx_q)
      × ((forget txs tp).cap ≡ tp.cap)
unfolding forget
forget_lem [] tp le small = (omega arith, refl, refl)
forget_lem (t ∷ txs) tp le small =
    let one_less : TxPool = record tp {
      cur_pri = sub32 tp.cur_pri (calc_pri (some t));
      ct = sub32 tp.ct 1;
    } in
    let (ct, q, cap) = forget_lem txs one_less (omega arith) (omega arith) in
    (omega (arith, ct), q, cap)

-- The transactions behind pointers that are not nil.
pub wrapped :
    (remover : List (Option Transaction))
    → has_nil remover ≡ false
    → (ts : List Transaction) × (remover ≡ map some ts)
unfolding has_nil
wrapped [] whole = ([], refl)
wrapped (none ∷ txs) whole = absurd (ground (arith, whole))
wrapped (some t ∷ txs) whole =
    let (ts, same) = wrapped txs whole in
    (t ∷ ts, ap (λ (us : List (Option Transaction)). some t ∷ us) same)

module _ ⦃crypto : Crypto⦄ where
  -- What the pool is after the removed transactions are known.
  remove-IsCounted :
      (removed : List Transaction) (q : Heap) (tp : TxPool)
      → length removed + length q ≡ length tp.tx_q
      → IsCounted tp
      → IsCounted (forget removed (record tp { tx_q = q }))
  remove-IsCounted removed q tp all c =
      let cut : TxPool = record tp { tx_q = q } in
      let (ct, same_q, same_cap) =
        forget_lem removed cut (omega (arith, c.counted)) (omega (arith, c.bounded, c.word)) in
      record {
        counted = omega (arith, ct, ap (λ (h : Heap). length h) same_q, c.counted);
        bounded = omega (arith, ct, same_cap, c.bounded);
        word = omega (arith, same_cap, c.word);
      }

  whole-IsCounted :
      (ts : List Transaction) (tp : TxPool)
      → IsCounted tp
      → has_nil (map some ts) ≡ false
      → IsCounted (chk_txs (map some ts) tp)
  unfolding chk_txs
  whole-IsCounted ts tp c whole = rw whole (
      remove-IsCounted (Heap.rmv (map some ts) tp.tx_q).0 (Heap.rmv (map some ts) tp.tx_q).1 tp
        (length-rmv ts tp.tx_q) c)

  nil-unchanged :
      (remover : List (Option Transaction)) (tp : TxPool)
      → has_nil remover ≡ true
      → chk_txs remover tp ≡ tp
  unfolding chk_txs
  nil-unchanged remover tp has = rw has

  -- Removing the transactions of a block keeps the count that of the queue, and within the capacity.
  pub chk_txs-IsCounted :
      (remover : List (Option Transaction)) (tp : TxPool)
      → IsCounted tp
      → IsCounted (chk_txs remover tp)
  chk_txs-IsCounted remover tp c = elim (Bool-cases (has_nil remover)) [
    | inl has ↦ subst IsCounted (sym (nil-unchanged remover tp has)) c
    | inr whole ↦
        let (ts, same) = wrapped remover whole in
        subst (λ (us : List (Option Transaction)). IsCounted (chk_txs us tp)) (sym same)
          (whole-IsCounted ts tp c (ap has_nil (sym same) ∙ whole))
  ]
