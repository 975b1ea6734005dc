-- ===== src/Tx/Heap.antt =====
-- BrunoCoin/pkg/block/tx/tx_heap.go, with what it calls of Go's container/heap. A slice of pointers
-- to nodes is a list of nodes: each node is in one heap only. An index is in range wherever the
-- code reads one, so what the model gives out of range is never seen.
pub mod Length
pub mod Array
pub mod Order
pub mod Up
pub mod Down
pub mod Removal
pub mod Contents
use csci1951l_cryptocurrency.Prelude.{
  ℕ, zero, suc, ◌+◌, ◌-◌, ◌*◌, ◌/◌, List, [], ◌∷◌, ◌++◌, Bool, true, false, not, ◌&&◌, ◌||◌, Option,
  none, some, length, get_elem?, set, take, map, ltb, leb, ◌==◌, if◌then◌else◌,
}
use csci1951l_cryptocurrency.Prelude.Word.{add32}
use csci1951l_cryptocurrency.Prelude.Result.{Result, ok, panic, deref}
use csci1951l_cryptocurrency.Text.Equality.{beq}
use csci1951l_cryptocurrency.Crypto.{Crypto}
use csci1951l_cryptocurrency.Tx
use csci1951l_cryptocurrency.Tx.{Transaction}

pub record HeapNode : Type 0 where
  pub p : ℕ
  pub t : Transaction

abbrev pub Heap : Type 0
Heap = List HeapNode

-- `h[i].P`
unfoldable pub prio : Heap → ℕ → ℕ
prio [] i = 0
prio (n ∷ h) zero = n.p
prio (n ∷ h) (suc i) = prio h i

-- `Less`, which puts the larger priority first.
pub less : Heap → ℕ → ℕ → Bool
less h i j = ltb (prio h j) (prio h i)

pub swap : Heap → ℕ → ℕ → Heap
swap h i j = elim (get_elem? h i) [
  | none ↦ h
  | some x ↦ elim (get_elem? h j) [ none ↦ h | some y ↦ set (set h i y) j x ]
]

abbrev pub parent : ℕ → ℕ
parent j = (j - 1) / 2

-- `up` of container/heap. Each round halves the index, which starts below the fuel.
pub up_loop : ℕ → ℕ → Heap → Heap
up_loop zero j h = h
up_loop (suc fuel) j h =
    let risen = up_loop fuel (parent j) (swap h (parent j) j) in
    if (parent j == j) || not (less h j (parent j)) then h else risen

-- The child of `i` that `down` compares with: the right one if it exists and comes first.
pub larger_child : Heap → ℕ → ℕ
larger_child h i =
    if ltb (2 * i + 2) (length h) && less h (2 * i + 2) (2 * i + 1) then 2 * i + 2 else 2 * i + 1

-- `down` of container/heap, for the whole slice. Each round moves to a larger index.
pub down_loop : ℕ → ℕ → Heap → Heap
down_loop zero i h = h
down_loop (suc fuel) i h =
    let sunk = down_loop fuel (larger_child h i) (swap h i (larger_child h i)) in
    if leb (length h) (2 * i + 1) then h else if less h (larger_child h i) i then sunk else h

-- The loop of `heap.Init`, with `i` rounds left.
pub init_loop : ℕ → Heap → Heap
init_loop zero h = h
init_loop (suc i) h = init_loop i (down_loop (length h) i h)

pub init : Heap → Heap
init h = init_loop (length h / 2) h

-- `heap.Push`
pub push : HeapNode → Heap → Heap
push n h = up_loop (length h + 1) (length h) (h ++ n ∷ [])

unfoldable pub new_tx_heap : Heap
unfolding init init_loop
new_tx_heap = init []

-- `Add`; a nil transaction is refused.
unfoldable pub add : ℕ → Option Transaction → Heap → Heap
add p none h = h
add p (some t) h = push (record { p = p; t = t }) h

unfoldable pub inc_all : Heap → Heap
inc_all [] = []
inc_all (n ∷ h) = record n { p = add32 n.p 1 } ∷ inc_all h

-- `Pop` and `Peek` of the slice itself: both read its last entry.
unfoldable pub pop : Heap → Result (HeapNode × Heap)
pop h = elim (get_elem? h (length h - 1)) [ none ↦ panic | some x ↦ ok (x, take (length h - 1) h) ]

unfoldable pub peek : Heap → Result HeapNode
peek h = deref (get_elem? h (length h - 1))

-- An entry is overwritten by the last one, and the slice is one shorter.
pub cut_at : ℕ → Heap → Heap
cut_at i h = take (length h - 1) (swap h i (length h - 1))

-- The transactions of the entries at or above a priority, in the order of the slice.
pub at_least : ℕ → Heap → List Transaction
at_least thresh [] = []
at_least thresh (n ∷ h) = if leb thresh n.p then n.t ∷ at_least thresh h else at_least thresh h

module _ ⦃crypto : Crypto⦄ where
  -- The loop of `GetIndex`.
  pub index_from : ℕ → Transaction → Heap → Option ℕ
  index_from i t [] = none
  index_from i t (v ∷ h) =
      let rest = index_from (i + 1) t h in if beq (Tx.hash v.t) (Tx.hash t) then some i else rest

  pub get_index : Option Transaction → Heap → Option ℕ
  get_index none h = none
  get_index (some t) h = index_from 0 t h

  pub has : Option Transaction → Heap → Bool
  has none h = false
  has (some t) h = elim (index_from 0 t h) [ none ↦ false | some _ ↦ true ]

  -- The loop of `Rmv`, with what was removed so far. A nil transaction ends it with a nil slice,
  -- and the heap is left without the order that `heap.Init` would restore.
  pub rmv_loop : List (Option Transaction) → List Transaction → Heap → List Transaction × Heap
  rmv_loop [] r h = (r, init h)
  rmv_loop (none ∷ ts) r h = ([], h)
  rmv_loop (some t ∷ ts) r h = elim (index_from 0 t h) [
    | none ↦ rmv_loop ts r h
    | some i ↦ rmv_loop ts (r ++ t ∷ []) (cut_at i h)
  ]

  pub rmv : List (Option Transaction) → Heap → List Transaction × Heap
  rmv ts h = rmv_loop ts [] h

  unfoldable pub rem_abv : ℕ → Heap → List Transaction × Heap
  rem_abv thresh h = (at_least thresh h, (rmv (map some (at_least thresh h)) h).1)
