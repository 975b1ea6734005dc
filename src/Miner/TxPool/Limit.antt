-- ===== src/Miner/TxPool/Limit.antt =====
-- The pools that the operations of BrunoCoin/pkg/miner/tx_pool.go make, and the test of the cumulative
-- priority that the miner waits for.
use mathlib.Core.List.{not-mem-nil}
pub mod Tests
use csci1951l_cryptocurrency.Prelude.{
  ◌%◌, List, [], ◌∷◌, map, Option, none, some, ◌≡◌, refl, ap₂, ◌∙◌, arith, Bool-cases, inl, inr,
  leb,
}
use csci1951l_cryptocurrency.Prelude.Word.{u32_mod, sub32}
use csci1951l_cryptocurrency.Crypto.{Crypto}
use csci1951l_cryptocurrency.Tx.{Transaction}
use csci1951l_cryptocurrency.Tx.Heap
use csci1951l_cryptocurrency.Tx.Heap.Order.{IsHeap}
use csci1951l_cryptocurrency.Miner.Config.{Config}
use csci1951l_cryptocurrency.Miner.TxPool.{
  TxPool, pri_met, new_tx_pool, calc_pri, add, forget, chk_txs,
}
use csci1951l_cryptocurrency.Miner.TxPool.Sound.{add-IsHeap, chk_txs-IsHeap}
use csci1951l_cryptocurrency.Miner.TxPool.Priority.{
  sum_pri, IsPriced, IsAgreed, add-IsPriced, has_nil-some, chk_txs-IsPriced,
}

add_lim : (t : Option Transaction) (tp : TxPool) → (add t tp).pri_lim ≡ tp.pri_lim
unfolding add
add_lim none tp = refl
add_lim (some t) tp = elim (Bool-cases (leb tp.cap tp.ct)) [
  | inl full ↦ rw full refl
  | inr room ↦ rw room refl
]

forget_lim : (txs : List Transaction) (tp : TxPool) → (forget txs tp).pri_lim ≡ tp.pri_lim
unfolding forget
forget_lim [] tp = refl
forget_lim (t ∷ txs) tp =
    forget_lim txs
      (record tp { cur_pri = sub32 tp.cur_pri (calc_pri (some t)); ct = sub32 tp.ct 1 })

module _ ⦃crypto : Crypto⦄ where
  chk_txs_lim :
      (ts : List Transaction) (tp : TxPool) → (chk_txs (map some ts) tp).pri_lim ≡ tp.pri_lim
  unfolding chk_txs
  chk_txs_lim ts tp = rw (has_nil-some ts) (forget_lim (Heap.rmv (map some ts) tp.tx_q).0 _)

  -- The pools of a configuration: a new one, and what `Add` and `ChkTxs` make of one.
  pub data IsPoolOf (c : Config) : TxPool → Type 0 where
    fresh : IsPoolOf c (new_tx_pool c)
    added : {tp : TxPool} (t : Option Transaction) → IsPoolOf c tp → IsPoolOf c (add t tp)
    checked :
        {tp : TxPool} (ts : List Transaction)
        → IsAgreed ts tp.tx_q
        → IsPoolOf c tp
        → IsPoolOf c (chk_txs (map some ts) tp)

  -- What every pool of a configuration has.
  record IsKept (c : Config) (tp : TxPool) : Type 0 where
    order : IsHeap tp.tx_q
    prices : IsPriced tp
    lim : tp.pri_lim ≡ c.pri_lim

  IsPoolOf-IsKept : {c : Config} {tp : TxPool} → IsPoolOf c tp → IsKept c tp
  unfolding new_tx_pool Heap.new_tx_heap
  IsPoolOf-IsKept IsPoolOf.fresh = record {
    order = λ i above inside. absurd (omega arith);
    prices = record { priced = λ n found. absurd (not-mem-nil found); summed = refl };
    lim = refl;
  }
  IsPoolOf-IsKept (IsPoolOf.added {tp = tp} t p) =
      let k = IsPoolOf-IsKept p in
      record {
        order = add-IsHeap t tp k.order;
        prices = add-IsPriced t tp k.order k.prices;
        lim = add_lim t tp ∙ k.lim;
      }
  IsPoolOf-IsKept (IsPoolOf.checked {tp = tp} ts agreed p) =
      let k = IsPoolOf-IsKept p in
      record {
        order = chk_txs-IsHeap (map some ts) tp k.order;
        prices = chk_txs-IsPriced ts tp agreed k.prices;
        lim = chk_txs_lim ts tp ∙ k.lim;
      }

  -- A pool comes from a new one by `Add`, of nil and in a full pool too, and by `ChkTxs` of
  -- transactions that have the priority of each entry with their hash. Then the priority of every
  -- entry is that of its transaction, the cumulative priority is the sum of the entries' modulo
  -- 2 ^ 32, and the miner's test of it compares that sum with the configuration's limit.
  pub pri_met_lem :
      {c : Config} {tp : TxPool}
      → IsPoolOf c tp
      → IsPriced tp × (pri_met tp ≡ leb c.pri_lim (sum_pri tp.tx_q % u32_mod))
  unfolding pri_met
  pri_met_lem p = let k = IsPoolOf-IsKept p in (k.prices, ap₂ leb k.lim k.prices.summed)
