-- ===== src/Miner/TxPool.antt =====
-- BrunoCoin/pkg/miner/tx_pool.go. The lock is held during `Add` and `ChkTxs`, so each is one step.
pub mod Count
pub mod Pooled
pub mod Sound
pub mod Priority
pub mod Limit
use csci1951l_cryptocurrency.Prelude.{
  ℕ, ◌/◌, List, [], ◌∷◌, Bool, true, false, Option, none, some, leb, ◌==◌, if◌then◌else◌,
}
use csci1951l_cryptocurrency.Prelude.Word.{add32, sub32, mul32}
use csci1951l_cryptocurrency.Crypto.{Crypto}
use csci1951l_cryptocurrency.Tx
use csci1951l_cryptocurrency.Tx.{Transaction, sum_inputs, sum_outputs}
use csci1951l_cryptocurrency.Tx.Heap
use csci1951l_cryptocurrency.Tx.Heap.{Heap}
use csci1951l_cryptocurrency.Miner.Config.{Config}

pub record TxPool : Type 0 where
  pub cur_pri : ℕ
  pub pri_lim : ℕ
  pub tx_q : Heap
  pub ct : ℕ
  pub cap : ℕ

unfoldable pub new_tx_pool : Config → TxPool
new_tx_pool c = record {
  cur_pri = 0;
  pri_lim = c.pri_lim;
  tx_q = Heap.new_tx_heap;
  ct = 0;
  cap = c.tx_p_cap;
}

abbrev pub length_of : TxPool → ℕ
length_of tp = tp.ct

unfoldable pub pri_met : TxPool → Bool
pri_met tp = leb tp.pri_lim tp.cur_pri

pub calc_pri : Option Transaction → ℕ
calc_pri none = 0
calc_pri (some t) =
    let fee = sub32 (sum_inputs t) (sum_outputs t) in
    let pri = mul32 fee 100 / Tx.sz t in if Tx.sz t == 0 then 1 else if pri == 0 then 1 else pri

pub add : Option Transaction → TxPool → TxPool
add none tp = tp
add (some t) tp = if leb tp.cap tp.ct then tp else record tp {
  cur_pri = add32 tp.cur_pri (calc_pri (some t));
  tx_q = Heap.add (calc_pri (some t)) (some t) tp.tx_q;
  ct = add32 tp.ct 1;
}

-- The first loop of `ChkTxs`.
pub has_nil : List (Option Transaction) → Bool
has_nil [] = false
has_nil (none ∷ txs) = true
has_nil (some t ∷ txs) = has_nil txs

-- The second loop: a removed transaction takes its priority and its count with it.
pub forget : List Transaction → TxPool → TxPool
forget [] tp = tp
forget (t ∷ txs) tp =
    forget txs (record tp { cur_pri = sub32 tp.cur_pri (calc_pri (some t)); ct = sub32 tp.ct 1 })

module _ ⦃crypto : Crypto⦄ where
  pub chk_txs : List (Option Transaction) → TxPool → TxPool
  chk_txs remover tp =
      let (removed, q) = Heap.rmv remover tp.tx_q in
      if has_nil remover then tp else forget removed (record tp { tx_q = q })
