-- ===== src/Tx/Heap/Length.antt =====
-- How many entries the heap has after each operation.
use csci1951l_cryptocurrency.Prelude.{
  ℕ, zero, suc, ◌+◌, ◌-◌, ◌*◌, map, ◌<◌, ◌/◌, List, [], ◌∷◌, ◌++◌, Option, none, some, ◌≡◌, refl,
  ap, ◌∙◌, arith, length, get_elem?, set, length-set, length-append, length-take, Bool-cases,
  Option-cases, inl, inr, not, ◌||◌, leb, ◌==◌,
}
use csci1951l_cryptocurrency.Crypto.{Crypto}
use csci1951l_cryptocurrency.Tx.{Transaction}
use csci1951l_cryptocurrency.Tx.Heap.{
  Heap, HeapNode, less, swap, parent, up_loop, larger_child, down_loop, init_loop, init, push,
  cut_at, index_from, rmv_loop, rmv,
}

length-exchange :
    (h : Heap) (i j : ℕ) (o o' : Option HeapNode)
    → length (elim o [ none ↦ h | some x ↦ elim o' [ none ↦ h | some y ↦ set (set h i y) j x ] ])
      ≡ length h
length-exchange h i j none o' = refl
length-exchange h i j (some x) none = refl
length-exchange h i j (some x) (some y) = length-set (set h i y) j x ∙ length-set h i y

pub length-swap : (h : Heap) (i j : ℕ) → length (swap h i j) ≡ length h
unfolding swap
length-swap h i j = length-exchange h i j (get_elem? h i) (get_elem? h j)

length-up_loop : (fuel j : ℕ) (h : Heap) → length (up_loop fuel j h) ≡ length h
unfolding up_loop
length-up_loop zero j h = refl
length-up_loop (suc fuel) j h =
    let risen = length-up_loop fuel (parent j) (swap h (parent j) j) ∙ length-swap h (parent j) j in
    elim (Bool-cases ((parent j == j) || not (less h j (parent j)))) [
      | inl stays ↦ rw stays refl
      | inr rises ↦ rw rises risen
    ]

pub length-push : (n : HeapNode) (h : Heap) → length (push n h) ≡ length h + 1
unfolding push
length-push n h = length-up_loop (length h + 1) (length h) (h ++ n ∷ []) ∙ length-append h (n ∷ [])

length-down_loop : (fuel i : ℕ) (h : Heap) → length (down_loop fuel i h) ≡ length h
unfolding down_loop
length-down_loop zero i h = refl
length-down_loop (suc fuel) i h =
    let c = larger_child h i in
    let sunk = length-down_loop fuel c (swap h i c) ∙ length-swap h i c in
    elim (Bool-cases (leb (length h) (2 * i + 1))) [
      | inl leaf ↦ rw leaf refl
      | inr inner ↦ elim (Bool-cases (less h c i)) [
        | inl sinks ↦ rw (inner, sinks) sunk
        | inr stays ↦ rw (inner, stays) refl
      ]
    ]

length-init_loop : (i : ℕ) (h : Heap) → length (init_loop i h) ≡ length h
unfolding init_loop
length-init_loop zero h = refl
length-init_loop (suc i) h =
    length-init_loop i (down_loop (length h) i h) ∙ length-down_loop (length h) i h

length-init : (h : Heap) → length (init h) ≡ length h
unfolding init
length-init h = length-init_loop (length h / 2) h

length-cut_at : (i : ℕ) (h : Heap) → length (cut_at i h) ≡ length h - 1
unfolding cut_at
length-cut_at i h =
    omega
      (arith, length-take (length h - 1) (swap h i (length h - 1)), length-swap h i (length h - 1))

module _ ⦃crypto : Crypto⦄ where
  index_from-pos :
      (i : ℕ) (t : Transaction) (h : Heap) {j : ℕ} → index_from i t h ≡ some j → 0 < length h
  unfolding index_from
  index_from-pos i t [] e = absurd (ground (arith, e))
  index_from-pos i t (n ∷ h) e = omega arith

  pub rmv_loop_missing :
      (t : Transaction) (ts : List (Option Transaction)) (r : List Transaction) (h : Heap)
      → index_from 0 t h ≡ none
      → rmv_loop (some t ∷ ts) r h ≡ rmv_loop ts r h
  unfolding rmv_loop
  rmv_loop_missing t ts r h missing =
      ap
        (λ (o : Option ℕ). elim o [
          | none ↦ rmv_loop ts r h
          | some i ↦ rmv_loop ts (r ++ t ∷ []) (cut_at i h)
        ])
        missing

  pub rmv_loop_found :
      (t : Transaction) (ts : List (Option Transaction)) (r : List Transaction) (h : Heap) (i : ℕ)
      → index_from 0 t h ≡ some i
      → rmv_loop (some t ∷ ts) r h ≡ rmv_loop ts (r ++ t ∷ []) (cut_at i h)
  unfolding rmv_loop
  rmv_loop_found t ts r h i found =
      ap
        (λ (o : Option ℕ). elim o [
          | none ↦ rmv_loop ts r h
          | some k ↦ rmv_loop ts (r ++ t ∷ []) (cut_at k h)
        ])
        found

  abbrev pub together : List Transaction × Heap → ℕ
  together (r, h) = length r + length h

  rmv_loop_end :
      (r : List Transaction) (h : Heap) → together (rmv_loop [] r h) ≡ length r + length h
  unfolding rmv_loop
  rmv_loop_end r h = omega (arith, length-init h)

  -- Where no transaction is nil, what is removed and what is left are together what was there.
  length-rmv_loop :
      (ts : List Transaction) (r : List Transaction) (h : Heap)
      → together (rmv_loop (map some ts) r h) ≡ length r + length h
  length-rmv_loop [] r h = rmv_loop_end r h
  length-rmv_loop (t ∷ ts) r h = elim (Option-cases (index_from 0 t h)) [
    | inl missing ↦
        ap together (rmv_loop_missing t (map some ts) r h missing) ∙ length-rmv_loop ts r h
    | inr (i, found) ↦
        ap together (rmv_loop_found t (map some ts) r h i found)
        ∙ length-rmv_loop ts (r ++ t ∷ []) (cut_at i h)
        ∙ omega (arith, length-append r (t ∷ []), length-cut_at i h, index_from-pos 0 t h found)
  ]

  pub length-rmv : (ts : List Transaction) (h : Heap) → together (rmv (map some ts) h) ≡ length h
  unfolding rmv
  length-rmv ts h = omega (arith, length-rmv_loop ts [] h)
