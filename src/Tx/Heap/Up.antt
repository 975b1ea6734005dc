-- ===== src/Tx/Heap/Up.antt =====
-- `heap.Push` keeps the order.
use mathlib.Core.List.{Perm}
use mathlib.Core.List.Perm
use csci1951l_cryptocurrency.Prelude.{
  ℕ, zero, suc, ◌+◌, ◌≤◌, ◌<◌, [], ◌∷◌, ◌++◌, ◌≢◌, arith, length, length-append, ◌==◌, ==_iff, not,
  ◌||◌, Bool-cases, inl, inr,
}
use csci1951l_cryptocurrency.Tx.Heap.{Heap, HeapNode, prio, less, swap, parent, up_loop, push}
use csci1951l_cryptocurrency.Tx.Heap.Length.{length-swap}
use csci1951l_cryptocurrency.Tx.Heap.Array.{prio-swap, swap_perm, prio-append, concat_perm}
use csci1951l_cryptocurrency.Tx.Heap.Order.{IsHeap, Ordered, Spans, less_iff}

-- Only the entry at `i` may be too large for its place.
record IsRising (h : Heap) (i : ℕ) : Type 0 where
  inside : i < length h
  rest : (c : ℕ) → 0 < c → c < length h → c ≢ i → prio h c ≤ prio h (parent c)
  spans : Spans 0 h i

swap-IsRising :
    (h : Heap) (i : ℕ)
    → IsRising h i
    → 0 < i
    → prio h (parent i) < prio h i
    → IsRising (swap h (parent i) i) (parent i)
swap-IsRising h i v pos above =
    let at = prio-swap h (parent i) i (omega (arith, v.inside)) v.inside in
    let size = length-swap h (parent i) i in
    record {
      inside = omega (arith, v.inside, size);
      rest = λ c p q other. ground (arith, at c, at (parent c), size, v.rest c, v.spans c);
      spans = λ c p q up root le.
          ground (arith, at c, at (parent (parent i)), size, v.rest c, v.rest (parent i));
    }

up_loop-Ordered : (fuel i : ℕ) (h : Heap) → i < fuel → IsRising h i → Ordered 0 h (up_loop fuel i h)
unfolding up_loop
up_loop-Ordered zero i h enough v = absurd (omega arith)
up_loop-Ordered (suc fuel) i h enough v =
    elim (Bool-cases ((parent i == i) || not (less h i (parent i)))) [
      | inl stays ↦ rw stays (
        (λ c p q le. ground (arith, v.rest c, stays, less_iff h i (parent i), ==_iff (parent i) i)),
        Perm.rfl,
      )
      | inr rises ↦
          let pos : 0 < i = ground (arith, ==_iff (parent i) i) in
          let above : prio h (parent i) < prio h i = ground (arith, less_iff h i (parent i)) in
          let (order, same) =
            up_loop-Ordered fuel (parent i) (swap h (parent i) i) (omega arith)
              (swap-IsRising h i v pos above) in
          rw rises
            (order, Perm.trans same (swap_perm h (parent i) i (omega (arith, v.inside)) v.inside))
    ]

-- Where only the last entry may be out of order, `up` puts the heap in order.
push-IsRising : (n : HeapNode) (h : Heap) → IsHeap h → IsRising (h ++ n ∷ []) (length h)
push-IsRising n h order =
    let size = length-append h (n ∷ []) in
    record {
      inside = omega (arith, size);
      rest = λ c p q other.
          ground
            (arith, size, order c, prio-append h (n ∷ []) c, prio-append h (n ∷ []) (parent c));
      spans = λ c p q up root le. absurd (omega (arith, size));
    }

-- Pushing an entry on a heap gives a heap of the entries and the new one.
pub push_lem : (n : HeapNode) (h : Heap) → IsHeap h → IsHeap (push n h) × Perm (push n h) (n ∷ h)
unfolding push
push_lem n h order =
    let (ordered, same) =
      up_loop-Ordered (length h + 1) (length h) (h ++ n ∷ []) (omega arith)
        (push-IsRising n h order) in
    (λ c p q. ordered c p q (omega arith), Perm.trans same (concat_perm h n))
