-- ===== src/Tx/Heap/Down.antt =====
-- `heap.Init` makes the order.
use mathlib.Core.List.{Perm}
use mathlib.Core.List.Perm
use csci1951l_cryptocurrency.Prelude.{
  ℕ, zero, suc, ◌+◌, ◌*◌, ◌/◌, ◌≤◌, ◌<◌, ◌≡◌, ◌≢◌, ◌⊎◌, refl, arith, length, ltb, leb, ◌&&◌,
  Bool-cases, inl, inr,
}
use csci1951l_cryptocurrency.Tx.Heap.{
  Heap, prio, less, swap, parent, larger_child, down_loop, init_loop, init,
}
use csci1951l_cryptocurrency.Tx.Heap.Length.{length-swap}
use csci1951l_cryptocurrency.Tx.Heap.Array.{prio-swap, swap_perm}
use csci1951l_cryptocurrency.Tx.Heap.Order.{IsHeap, IsHeapFrom, Ordered, Spans, less_iff}

-- The entry at `i` may be too small for its place; from `lo` on, nothing else is out of order.
record IsSinking (lo : ℕ) (h : Heap) (i : ℕ) : Type 0 where
  rest :
      (c : ℕ) → 0 < c → c < length h → lo ≤ parent c → parent c ≢ i → prio h c ≤ prio h (parent c)
  spans : Spans lo h i

-- The child that `down` looks at is a child, and no other is larger.
record IsLargerChild (h : Heap) (i m : ℕ) : Type 0 where
  inside : m < length h
  child : (m ≡ 2 * i + 1) ⊎ (m ≡ 2 * i + 2)
  largest : (c : ℕ) → 0 < c → c < length h → parent c ≡ i → prio h c ≤ prio h m

larger_child-IsLargerChild :
    (h : Heap) (i : ℕ) → 2 * i + 1 < length h → IsLargerChild h i (larger_child h i)
unfolding larger_child
larger_child-IsLargerChild h i inner =
    let both = less_iff h (2 * i + 2) (2 * i + 1) in
    elim (Bool-cases (ltb (2 * i + 2) (length h) && less h (2 * i + 2) (2 * i + 1))) [
      | inl right ↦ rw right (record {
        inside = ground arith;
        child = inr refl;
        largest = λ c p q up. ground (arith, both);
      })
      | inr left ↦
          rw left (record {
            inside = inner;
            child = inl refl;
            largest = λ c p q up. ground (arith, both);
          })
    ]

swap-IsSinking :
    (lo : ℕ) (h : Heap) (i m : ℕ)
    → IsSinking lo h i
    → IsLargerChild h i m
    → prio h i < prio h m
    → IsSinking lo (swap h i m) m
swap-IsSinking lo h i m v s below =
    let at = prio-swap h i m (omega (arith, s.inside, s.child)) s.inside in
    let size = length-swap h i m in
    let child = s.child in
    record {
      rest = λ c p q le other.
          ground (arith, at c, at (parent c), size, child, v.rest c, v.spans m, s.largest c);
      spans = λ c p q up root le. ground (arith, at c, at (parent m), size, child, v.rest c);
    }

down_loop-Ordered :
    (fuel lo i : ℕ) (h : Heap)
    → length h ≤ i + fuel
    → IsSinking lo h i
    → Ordered lo h (down_loop fuel i h)
unfolding down_loop
down_loop-Ordered zero lo i h enough v = (λ c p q le. v.rest c p q le (ground arith), Perm.rfl)
down_loop-Ordered (suc fuel) lo i h enough v = elim (Bool-cases (leb (length h) (2 * i + 1))) [
  | inl leaf ↦ rw leaf (λ c p q le. v.rest c p q le (ground arith), Perm.rfl)
  | inr inner ↦
      let m = larger_child h i in
      let s = larger_child-IsLargerChild h i (ground arith) in
      let lower = less_iff h m i in
      elim (Bool-cases (less h m i)) [
        | inr stays ↦
            rw (inner, stays) (λ c p q le. ground (arith, v.rest c, s.largest c, lower), Perm.rfl)
        | inl sinks ↦
            let size = length-swap h i m in
            let (order, same) =
              down_loop-Ordered fuel lo m (swap h i m) (omega (arith, size, s.child))
                (swap-IsSinking lo h i m v s (ground arith)) in
            rw (inner, sinks)
              (order, Perm.trans same (swap_perm h i m (omega (arith, s.inside, s.child)) s.inside))
      ]
]

start-IsSinking : (i : ℕ) (h : Heap) → IsHeapFrom (suc i) h → IsSinking i h i
start-IsSinking i h order = record {
  rest = λ c p q le other. order c p q (ground arith);
  spans = λ c p q up root le. absurd (omega arith);
}

init_loop-Ordered : (i : ℕ) (h : Heap) → IsHeapFrom i h → Ordered 0 h (init_loop i h)
unfolding init_loop
init_loop-Ordered zero h order = (order, Perm.rfl)
init_loop-Ordered (suc i) h order =
    let (later, same) =
      down_loop-Ordered (length h) i i h (omega arith) (start-IsSinking i h order) in
    let (all, same') = init_loop-Ordered i (down_loop (length h) i h) later in
    (all, Perm.trans same' same)

-- Any slice becomes a heap of the same entries.
pub init_lem : (h : Heap) → IsHeap (init h) × Perm (init h) h
unfolding init
init_lem h =
    let (order, same) = init_loop-Ordered (length h / 2) h (λ c p q le. absurd (omega arith)) in
    (λ c p q. order c p q (omega arith), same)
