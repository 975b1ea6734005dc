-- ===== src/Miner/TxPool/Limit/Tests.antt =====
-- The cumulative priority of a concrete pool.
use mathlib.Core.Logic.Or
use mathlib.Core.List.Perm
use mathlib.Core.List.{Mem, mem-cons, not-mem-nil}
use native.Mathlib.Nat.{ℕ_set}
use csci1951l_cryptocurrency.Prelude.{
  ℕ, ◌%◌, [], ◌∷◌, map, true, some, ◌≡◌, sym, ap, ◌∙◌, leb, arith,
}
use csci1951l_cryptocurrency.Prelude.Word.{u32_mod}
use csci1951l_cryptocurrency.Crypto.Toy.{toy}
use csci1951l_cryptocurrency.Tx.{Transaction}
use csci1951l_cryptocurrency.Tx.Heap
use csci1951l_cryptocurrency.Tx.Heap.{HeapNode}
use csci1951l_cryptocurrency.Tx.Heap.Up.{push_lem}
use csci1951l_cryptocurrency.Miner.Config.{Config}
use csci1951l_cryptocurrency.Miner.TxPool.{TxPool, pri_met, new_tx_pool, calc_pri, add, chk_txs}
use csci1951l_cryptocurrency.Miner.TxPool.Priority.{sum_pri, IsPriced, IsAgreed}
use csci1951l_cryptocurrency.Miner.TxPool.Limit.{IsPoolOf, pri_met_lem}

abbrev limits : Config
limits = record {
  has_mnr = true;
  ver = 0;
  def_lck_tm = 0;
  tx_p_cap = 50;
  pri_lim = 10;
  blk_sz = 1000;
  nnc_lim = 2;
  init_subsdy = 10;
  subsdy_hlv_rt = 10;
  mx_hlvgs = 10;
  init_powd = [];
}

abbrev gift : Transaction
gift = record { version = 0; inputs = []; outputs = []; lock_time = 0 }

abbrev held : TxPool
held = add (some gift) (new_tx_pool limits)

only : {A : Type 0} {x y : A} (f : A → ℕ) → Mem x (y ∷ []) → f x ≡ f y
only f found =
    Or.elim (ℕ_set _ _) (mem-cons.0 found) (λ same. ap f same) (λ more. absurd (not-mem-nil more))

held-IsAgreed : IsAgreed (gift ∷ []) held.tx_q
unfolding add new_tx_pool Heap.add Heap.new_tx_heap
held-IsAgreed t n here found same =
    let m : HeapNode = record { p = calc_pri (some gift); t = gift } in
    let one : Mem n (m ∷ []) =
      (Perm.mem_iff (push_lem m [] (λ c above inside. absurd (omega arith))).1).0 found in
    only (λ (k : HeapNode). calc_pri (some k.t)) one
    ∙ sym (only (λ (u : Transaction). calc_pri (some u)) here)

pri_met_lem_example :
    IsPriced (chk_txs (map some (gift ∷ [])) held)
    × (pri_met (chk_txs (map some (gift ∷ [])) held)
        ≡ leb 10 (sum_pri (chk_txs (map some (gift ∷ [])) held).tx_q % u32_mod))
pri_met_lem_example = pri_met_lem {c = limits} {tp = chk_txs (map some (gift ∷ [])) held} (
    IsPoolOf.checked {tp = held} (gift ∷ []) held-IsAgreed
      (IsPoolOf.added {tp = new_tx_pool limits} (some gift) IsPoolOf.fresh))
