-- ===== src/Tx/Heap/Contents.antt =====
-- What is pushed on the heap is found in it, in whatever order the slice was.
use mathlib.Core.HLevel.{⊥_prop, Π_prop}
use mathlib.Core.Logic.Or
use mathlib.Core.List.{Perm, Mem, not-mem-nil, mem-cons_self, eq-or-mem_of_mem-cons}
use mathlib.Core.List.Perm
use csci1951l_cryptocurrency.Prelude.{
  ℕ, zero, suc, ◌+◌, ◌<◌, [], ◌∷◌, ◌++◌, true, not, ◌||◌, ◌==◌, some, ◌≡◌, ◌≢◌, refl, sym, ap, ◌∙◌,
  arith, length, length-append, Bool-cases, Option-cases, inl, inr,
}
use csci1951l_cryptocurrency.Crypto.{Crypto}
use csci1951l_cryptocurrency.Tx
use csci1951l_cryptocurrency.Tx.{Transaction}
use csci1951l_cryptocurrency.Tx.Heap.{
  Heap, HeapNode, less, swap, parent, up_loop, push, add, index_from, has,
}
use csci1951l_cryptocurrency.Tx.Heap.Length.{length-swap}
use csci1951l_cryptocurrency.Tx.Heap.Array.{swap_perm, concat_perm}
use csci1951l_cryptocurrency.Tx.Heap.Removal.{Lacks, index_from-Lacks}

up_loop_perm : (fuel i : ℕ) (h : Heap) → i < length h → Perm (up_loop fuel i h) h
unfolding up_loop
up_loop_perm zero i h inside = Perm.rfl
up_loop_perm (suc fuel) i h inside =
    elim (Bool-cases ((parent i == i) || not (less h i (parent i)))) [
      | inl stays ↦ rw stays Perm.rfl
      | inr rises ↦
          let up : parent i < length h = omega arith in
          rw rises (
            Perm.trans
              (up_loop_perm fuel (parent i) (swap h (parent i) i)
                (omega (arith, up, length-swap h (parent i) i)))
              (swap_perm h (parent i) i up inside))
    ]

-- Pushing adds the entry and loses none, even on a slice that is no heap.
push_perm : (n : HeapNode) (h : Heap) → Perm (push n h) (n ∷ h)
unfolding push
push_perm n h =
    Perm.trans
      (up_loop_perm (length h + 1) (length h) (h ++ n ∷ [])
        (omega (arith, length-append h (n ∷ []))))
      (concat_perm h n)

module _ ⦃crypto : Crypto⦄ where
  Lacks-Mem :
      (t : Transaction) (h : Heap) (n : HeapNode) → Lacks t h → Mem n h → Tx.hash n.t ≢ Tx.hash t
  Lacks-Mem t [] n lacks m = absurd (not-mem-nil m)
  Lacks-Mem t (k ∷ h) n lacks m =
      Or.elim (Π_prop (λ e. ⊥_prop)) (eq-or-mem_of_mem-cons m)
        (λ same e. lacks.0 (ap (λ (x : HeapNode). Tx.hash x.t) (sym same) ∙ e))
        (λ later. Lacks-Mem t h n lacks.1 later)

  has-Mem :
      (t : Transaction) (h : Heap) (n : HeapNode)
      → Mem n h
      → Tx.hash n.t ≡ Tx.hash t
      → has (some t) h ≡ true
  unfolding has
  has-Mem t h n m same = elim (Option-cases (index_from 0 t h)) [
    | inl missing ↦ absurd (Lacks-Mem t h n (index_from-Lacks 0 t h missing) m same)
    | inr (i, found) ↦ rw (found, has)
  ]

  -- A transaction that was added is in the heap.
  pub has-add : (p : ℕ) (t : Transaction) (h : Heap) → has (some t) (add p (some t) h) ≡ true
  unfolding add
  has-add p t h =
      let n : HeapNode = record { p = p; t = t } in
      has-Mem t (push n h) n ((Perm.mem_iff (push_perm n h)).1 mem-cons_self) refl
