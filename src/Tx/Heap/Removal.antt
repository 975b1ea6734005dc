-- ===== src/Tx/Heap/Removal.antt =====
-- `Rmv` refines the removal from a bag of entries, whatever the order of the slice.
use mathlib.Core.List.{Perm, append-nil, append_assoc}
use mathlib.Core.List.Perm
use csci1951l_cryptocurrency.Prelude.{
  ℕ, suc, ◌+◌, ◌-◌, ◌<◌, List, [], ◌∷◌, ◌++◌, map, none, some, ◌≡◌, ◌≢◌, ◌⊎◌, refl, sym, ap, subst,
  ◌∙◌, arith, length, length-set, get_elem?, set, All, Bool-cases, Option-cases, inl, inr,
}
use csci1951l_cryptocurrency.Text.Equality.{beq, beq_iff}
use csci1951l_cryptocurrency.Crypto.{Crypto}
use csci1951l_cryptocurrency.Tx
use csci1951l_cryptocurrency.Tx.{Transaction}
use csci1951l_cryptocurrency.Tx.Heap.{Heap, HeapNode, swap, init, cut_at, index_from, rmv_loop, rmv}
use csci1951l_cryptocurrency.Tx.Heap.Length.{length-swap, rmv_loop_missing, rmv_loop_found}
use csci1951l_cryptocurrency.Tx.Heap.Array.{
  get_elem?-set, swap_eq, swap_perm, take_last_perm, get_elem?-inside, inside_of_get,
}
use csci1951l_cryptocurrency.Tx.Heap.Order.{IsHeap}
use csci1951l_cryptocurrency.Tx.Heap.Down.{init_lem}

swapped_last :
    (h : Heap) (i j : ℕ) (x : HeapNode)
    → get_elem? h i ≡ some x
    → j < length h
    → get_elem? (swap h i j) j ≡ some x
swapped_last h i j x at_i hj =
    let (y, at_j) = get_elem?-inside h j hj in
    ap (λ (k : Heap). get_elem? k j) (swap_eq h i j x y at_i at_j)
    ∙ ground (arith, get_elem?-set (set h i y) j j x (omega (arith, length-set h i y)))

cut_at_perm : (i : ℕ) (h : Heap) (x : HeapNode) → get_elem? h i ≡ some x → Perm (x ∷ cut_at i h) h
unfolding cut_at
cut_at_perm i h x at_i =
    let inside = inside_of_get h i x at_i in
    let j = length h - 1 in
    let last : j < length h = omega arith in
    Perm.trans
      (take_last_perm j (swap h i j) x (omega (arith, length-swap h i j))
        (swapped_last h i j x at_i last))
      (swap_perm h i j inside last)

module _ ⦃crypto : Crypto⦄ where
  -- No entry has the hash of the transaction.
  abbrev pub Lacks : Transaction → Heap → Type 0
  Lacks t = All (λ n. Tx.hash n.t ≢ Tx.hash t)

  -- Removing transactions one after the other from a bag of entries: one without an entry of its
  -- hash is passed over, any other takes one such entry with it. `r` are those that did, `k` is what
  -- is left of `h`.
  abbrev pub Removes : List Transaction → List Transaction → Heap → Heap → Type 0
  Removes [] r h k = (r ≡ []) × Perm k h
  Removes (t ∷ ts) r h k =
      (Lacks t h × Removes ts r h k)
      ⊎ ((n : HeapNode) × (h' : Heap) × (r' : List Transaction) × (Tx.hash n.t ≡ Tx.hash t)
          × Perm (n ∷ h') h
          × (r ≡ t ∷ r')
          × Removes ts r' h' k)

  pub index_from-Lacks : (i : ℕ) (t : Transaction) (h : Heap) → index_from i t h ≡ none → Lacks t h
  unfolding index_from
  index_from-Lacks i t [] e = tt
  index_from-Lacks i t (n ∷ h) e = elim (Bool-cases (beq (Tx.hash n.t) (Tx.hash t))) [
    | inl same ↦ absurd (ground (arith, rw same at e))
    | inr other ↦ (
      ground (arith, beq_iff (Tx.hash n.t) (Tx.hash t)),
      index_from-Lacks (i + 1) t h (rw other at e),
    )
  ]

  index_from-entry :
      (i : ℕ) (t : Transaction) (h : Heap) (j : ℕ)
      → index_from i t h ≡ some j
      → (n : HeapNode) × (k : ℕ) × (j ≡ i + k)
        × (get_elem? h k ≡ some n)
        × (Tx.hash n.t ≡ Tx.hash t)
  unfolding index_from
  index_from-entry i t [] j e = absurd (ground arith)
  index_from-entry i t (n ∷ h) j e = elim (Bool-cases (beq (Tx.hash n.t) (Tx.hash t))) [
    | inl same ↦ (
      n,
      0,
      ground (arith, rw same at e),
      refl,
      ground (arith, beq_iff (Tx.hash n.t) (Tx.hash t)),
    )
    | inr other ↦
        let (m, k, at_k, found, same) = index_from-entry (i + 1) t h j (rw other at e) in
        (m, suc k, omega arith, found, same)
  ]

  -- How the loop of `Rmv` ends: what it adds to `r`, and the heap.
  record Ends (ts : List Transaction) (r : List Transaction) (h : Heap)
      (out : List Transaction × Heap) : Type 0 where
    taken : List Transaction
    result : out.0 ≡ r ++ taken
    removes : Removes ts taken h out.1
    order : IsHeap out.1

  rmv_loop_nil : (r : List Transaction) (h : Heap) → (r, init h) ≡ rmv_loop [] r h
  unfolding rmv_loop
  rmv_loop_nil r h = refl

  rmv_loop-Ends :
      (ts : List Transaction) (r : List Transaction) (h : Heap)
      → Ends ts r h (rmv_loop (map some ts) r h)
  rmv_loop-Ends [] r h =
      let (order, same) = init_lem h in
      subst (Ends [] r h) (rmv_loop_nil r h)
        (record { taken = []; result = sym (append-nil r); removes = (refl, same); order = order })
  rmv_loop-Ends (t ∷ ts) r h = elim (Option-cases (index_from 0 t h)) [
    | inl missing ↦
        let f = rmv_loop-Ends ts r h in
        subst (Ends (t ∷ ts) r h) (sym (rmv_loop_missing t (map some ts) r h missing)) (record {
          taken = f.taken;
          result = f.result;
          removes = inl (index_from-Lacks 0 t h missing, f.removes);
          order = f.order;
        })
    | inr (i, found) ↦
        let (n, k, at_k, entry, same) = index_from-entry 0 t h i found in
        let at_i : get_elem? h i ≡ some n =
          subst (λ (l : ℕ). get_elem? h l ≡ some n) (omega arith) entry in
        let f = rmv_loop-Ends ts (r ++ t ∷ []) (cut_at i h) in
        subst (Ends (t ∷ ts) r h) (sym (rmv_loop_found t (map some ts) r h i found)) (record {
          taken = t ∷ f.taken;
          result = f.result ∙ append_assoc r (t ∷ []) f.taken;
          removes = inr (n, cut_at i h, f.taken, same, cut_at_perm i h n at_i, refl, f.removes);
          order = f.order;
        })
  ]

  -- Where no transaction is nil, `Rmv` returns what the removal from the bag of the entries takes
  -- out, and leaves a heap of what the removal leaves, in whatever order the slice was.
  pub rmv_refines :
      (ts : List Transaction) (h : Heap)
      → Removes ts (rmv (map some ts) h).0 h (rmv (map some ts) h).1
        × IsHeap (rmv (map some ts) h).1
  unfolding rmv
  rmv_refines ts h =
      let f = rmv_loop-Ends ts [] h in
      (
        subst (λ (r : List Transaction). Removes ts r h (rmv_loop (map some ts) [] h).1)
            (sym f.result) f.removes,
        f.order,
      )
