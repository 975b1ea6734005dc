-- ===== src/Miner/TxPool/Priority.antt =====
-- The priorities in the pool of BrunoCoin/pkg/miner/tx_pool.go: each entry has that of its transaction,
-- and `CurPri` is their sum.
use mathlib.Core.Logic.Or
use mathlib.Core.Logic.{∥∥₁_elim}
use mathlib.Core.List.{Mem, Perm, Permᴰ, mem-cons, mem-cons_self, mem-cons_of_mem}
use mathlib.Core.List.Perm
use native.Mathlib.Nat.{ℕ_set, div-le_self}
use csci1951l_cryptocurrency.Prelude.{
  ℕ, ◌+◌, ◌/◌, ◌%◌, ◌<◌, List, [], ◌∷◌, map, false, Option, none, some, ◌≡◌, refl, sym, ap, ap₂,
  subst, ◌∙◌, arith, Bool-cases, inl, inr, leb, ◌==◌,
}
use csci1951l_cryptocurrency.Prelude.Word.{u32_mod, sub32, mul32}
use csci1951l_cryptocurrency.Crypto.{Crypto}
use csci1951l_cryptocurrency.Tx
use csci1951l_cryptocurrency.Tx.{Transaction, sum_inputs, sum_outputs}
use csci1951l_cryptocurrency.Tx.Heap
use csci1951l_cryptocurrency.Tx.Heap.{Heap, HeapNode}
use csci1951l_cryptocurrency.Tx.Heap.Order.{IsHeap}
use csci1951l_cryptocurrency.Tx.Heap.Up.{push_lem}
use csci1951l_cryptocurrency.Tx.Heap.Removal.{Removes, rmv_refines}
use csci1951l_cryptocurrency.Miner.TxPool.Sound.{tx_q-forget}
use csci1951l_cryptocurrency.Miner.TxPool.{TxPool, calc_pri, add, has_nil, forget, chk_txs}

-- The priorities of all entries, as an unbounded sum.
abbrev pub sum_pri : Heap → ℕ
sum_pri [] = 0
sum_pri (n ∷ h) = n.p + sum_pri h

sum_pri-permᴰ : {h k : Heap} → Permᴰ h k → sum_pri h ≡ sum_pri k
sum_pri-permᴰ Permᴰ.nil = refl
sum_pri-permᴰ (Permᴰ.cons e p) = ap₂ (λ (n : HeapNode) (s : ℕ). n.p + s) e (sum_pri-permᴰ p)
sum_pri-permᴰ (Permᴰ.swap e f) =
    omega (arith, ap (λ (n : HeapNode). n.p) e, ap (λ (n : HeapNode). n.p) f)
sum_pri-permᴰ (Permᴰ.trans p q) = sum_pri-permᴰ p ∙ sum_pri-permᴰ q

sum_pri-perm : {h k : Heap} → Perm h k → sum_pri h ≡ sum_pri k
sum_pri-perm p = ∥∥₁_elim p (ℕ_set _ _) sum_pri-permᴰ

-- Each entry has the priority of its transaction.
abbrev pub IsPricedHeap : Heap → Type 0
IsPricedHeap h = (n : HeapNode) → Mem n h → n.p ≡ calc_pri (some n.t)

-- The cumulative priority is the sum of the entries' own, modulo 2 ^ 32.
pub record IsPriced (tp : TxPool) : Type 0 where
  pub priced : IsPricedHeap tp.tx_q
  pub summed : tp.cur_pri ≡ sum_pri tp.tx_q % u32_mod

cons-IsPricedHeap :
    (n : HeapNode) (h : Heap) → n.p ≡ calc_pri (some n.t) → IsPricedHeap h → IsPricedHeap (n ∷ h)
cons-IsPricedHeap n h e v m found =
    Or.elim (ℕ_set _ _) (mem-cons.0 found)
      (λ same. subst (λ (k : HeapNode). k.p ≡ calc_pri (some k.t)) (sym same) e) (v m)

pub add-IsPriced :
    (t : Option Transaction) (tp : TxPool) → IsHeap tp.tx_q → IsPriced tp → IsPriced (add t tp)
unfolding add Heap.add
add-IsPriced none tp order v = v
add-IsPriced (some t) tp order v = elim (Bool-cases (leb tp.cap tp.ct)) [
  | inl full ↦ rw full v
  | inr room ↦
      let n : HeapNode = record { p = calc_pri (some t); t = t } in
      let same = (push_lem n tp.tx_q order).1 in
      rw room (record {
        priced =
            λ m found. cons-IsPricedHeap n tp.tx_q refl v.priced m ((Perm.mem_iff same).0 found);
        summed = omega (arith, v.summed, sum_pri-perm same);
      })
]

-- The priorities of removed transactions.
abbrev sum_calc : List Transaction → ℕ
sum_calc [] = 0
sum_calc (t ∷ ts) = calc_pri (some t) + sum_calc ts

calc_pri-lt : (t : Transaction) → calc_pri (some t) < u32_mod
unfolding calc_pri
calc_pri-lt t =
    let pri = mul32 (sub32 (sum_inputs t) (sum_outputs t)) 100 in
    let small = div-le_self pri (Tx.sz t) in
    elim (Bool-cases (Tx.sz t == 0)) [
      | inl empty ↦ rw empty (omega arith)
      | inr sized ↦ rw sized (elim (Bool-cases (pri / Tx.sz t == 0)) [
        | inl none_left ↦ rw none_left (omega arith)
        | inr some_left ↦ rw some_left (omega (arith, small))
      ])
    ]

cur_pri-forget :
    (txs : List Transaction) (s : ℕ) (tp : TxPool)
    → tp.cur_pri ≡ (s + sum_calc txs) % u32_mod
    → (forget txs tp).cur_pri ≡ s % u32_mod
unfolding forget
cur_pri-forget [] s tp e = omega (arith, e)
cur_pri-forget (t ∷ txs) s tp e =
    cur_pri-forget txs s
      (record tp { cur_pri = sub32 tp.cur_pri (calc_pri (some t)); ct = sub32 tp.ct 1 })
      (omega (arith, e, calc_pri-lt t))

pub has_nil-some : (ts : List Transaction) → has_nil (map some ts) ≡ false
unfolding has_nil
has_nil-some [] = refl
has_nil-some (t ∷ ts) = has_nil-some ts

module _ ⦃crypto : Crypto⦄ where
  -- Transactions and entries of one hash have one priority.
  abbrev pub IsAgreed : List Transaction → Heap → Type 0
  IsAgreed ts h =
      (t : Transaction) (n : HeapNode)
      → Mem t ts
      → Mem n h
      → Tx.hash n.t ≡ Tx.hash t
      → calc_pri (some n.t) ≡ calc_pri (some t)

  -- What is removed takes its priorities with it.
  Removes-IsPricedHeap :
      (ts r : List Transaction) (h k : Heap)
      → Removes ts r h k
      → IsAgreed ts h
      → IsPricedHeap h
      → IsPricedHeap k × (sum_pri h ≡ sum_pri k + sum_calc r)
  Removes-IsPricedHeap [] r h k (none_left, same) agreed v = (
    λ n found. v n ((Perm.mem_iff same).0 found),
    omega (arith, ap sum_calc none_left, sum_pri-perm same),
  )
  Removes-IsPricedHeap (t ∷ ts) r h k (inl (lacks, rest)) agreed v =
      Removes-IsPricedHeap ts r h k rest (λ u n here. agreed u n (mem-cons_of_mem t here)) v
  Removes-IsPricedHeap (t ∷ ts) r h k (inr (n, h', r', same_hash, same, taken, rest)) agreed v =
      let inside : (m : HeapNode) → Mem m h' → Mem m h =
        λ m found. (Perm.mem_iff same).0 (mem-cons_of_mem n found) in
      let at_n : Mem n h = (Perm.mem_iff same).0 mem-cons_self in
      let (kept, sum) =
        Removes-IsPricedHeap ts r' h' k rest
          (λ u m here found. agreed u m (mem-cons_of_mem t here) (inside m found))
          (λ m found. v m (inside m found)) in
      (
        kept,
        omega (
          arith,
          sum,
          sum_pri-perm same,
          v n at_n,
          agreed t n mem-cons_self at_n same_hash,
          ap sum_calc taken,
        ),
      )

  -- What is left of a block's transactions keeps the priorities and their sum.
  pub chk_txs-IsPriced :
      (ts : List Transaction) (tp : TxPool)
      → IsAgreed ts tp.tx_q
      → IsPriced tp
      → IsPriced (chk_txs (map some ts) tp)
  unfolding chk_txs
  chk_txs-IsPriced ts tp agreed v =
      let (removed, q) = Heap.rmv (map some ts) tp.tx_q in
      let (removes, order) = rmv_refines ts tp.tx_q in
      let (kept, sum) = Removes-IsPricedHeap ts removed tp.tx_q q removes agreed v.priced in
      let same = tx_q-forget removed (record tp { tx_q = q }) in
      rw (has_nil-some ts) (record {
        priced = subst IsPricedHeap (sym same) kept;
        summed =
            cur_pri-forget removed (sum_pri q) (record tp { tx_q = q })
              (omega (arith, v.summed, sum))
            ∙ ap (λ (h : Heap). sum_pri h % u32_mod) (sym same);
      })
