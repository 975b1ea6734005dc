-- ===== src/Tx/Heap/Order.antt =====
-- The order of a heap.
use mathlib.Core.List.{Perm}
use csci1951l_cryptocurrency.Prelude.{ℕ, zero, suc, ◌≤◌, ◌<◌, ◌≡◌, refl, arith, length, ltb}
use csci1951l_cryptocurrency.Tx.Heap.{Heap, prio, less, parent}

-- No entry has a larger priority than the one above it, for the entries whose parent is at `lo` or
-- later.
abbrev pub IsHeapFrom : ℕ → Heap → Type 0
IsHeapFrom lo h = (c : ℕ) → 0 < c → c < length h → lo ≤ parent c → prio h c ≤ prio h (parent c)

abbrev pub IsHeap : Heap → Type 0
IsHeap h = (c : ℕ) → 0 < c → c < length h → prio h c ≤ prio h (parent c)

-- `k` has the entries of `h`, in order from `lo` on.
abbrev pub Ordered : ℕ → Heap → Heap → Type 0
Ordered lo h k = IsHeapFrom lo k × Perm k h

-- What is past `i` is in order: its children stay below its parent.
abbrev pub Spans : ℕ → Heap → ℕ → Type 0
Spans lo h i =
    (c : ℕ)
    → 0 < c
    → c < length h
    → parent c ≡ i
    → 0 < i
    → lo ≤ parent i
    → prio h c ≤ prio h (parent i)

pub less_iff : (h : Heap) (i j : ℕ) → less h i j ≡ ltb (prio h j) (prio h i)
unfolding less
less_iff h i j = refl

root_largest_below :
    (k : ℕ) (h : Heap) (i : ℕ) → IsHeap h → i < k → i < length h → prio h i ≤ prio h 0
root_largest_below zero h i order lt inside = absurd (omega arith)
root_largest_below (suc k) h i order lt inside =
    ground (arith, order i, root_largest_below k h (parent i) order)

-- The first entry of a heap has the largest priority.
pub root_largest : (h : Heap) (i : ℕ) → IsHeap h → i < length h → prio h i ≤ prio h 0
root_largest h i order inside = root_largest_below (suc i) h i order (omega arith) inside
