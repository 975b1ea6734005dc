-- ===== src/Tx/Heap/Array.antt =====
-- The entries of the slice after a write and after an exchange.
use mathlib.Core.List.{Perm}
use mathlib.Core.List.Perm
use mathlib.Core.Option.{some-injective}
use csci1951l_cryptocurrency.Prelude.{
  ℕ, zero, suc, ◌<◌, [], ◌∷◌, ◌++◌, Option, none, some, ◌≡◌, refl, sym, ap, ap₂, subst, ◌∙◌, arith,
  length, length-set, get_elem?, set, take, ◌==◌, if◌then◌else◌,
}
use csci1951l_cryptocurrency.Tx.Heap.{Heap, HeapNode, prio, swap}

pub get_elem?-inside : (h : Heap) (i : ℕ) → i < length h → (x : HeapNode) × (get_elem? h i ≡ some x)
get_elem?-inside [] i lt = absurd (omega arith)
get_elem?-inside (x ∷ h) zero lt = (x, refl)
get_elem?-inside (x ∷ h) (suc i) lt = get_elem?-inside h i (omega arith)

pub prio-get_elem? : (h : Heap) (i : ℕ) (x : HeapNode) → get_elem? h i ≡ some x → prio h i ≡ x.p
unfolding prio
prio-get_elem? [] i x at = cc
prio-get_elem? (y ∷ h) zero x at = ap (λ (z : HeapNode). z.p) (some-injective y x at)
prio-get_elem? (y ∷ h) (suc i) x at = prio-get_elem? h i x at

pub get_elem?-set :
    (h : Heap) (i j : ℕ) (v : HeapNode)
    → i < length h
    → get_elem? (set h i v) j ≡ (if i == j then some v else get_elem? h j)
get_elem?-set [] i j v lt = absurd (omega arith)
get_elem?-set (x ∷ h) zero zero v lt = refl
get_elem?-set (x ∷ h) zero (suc j) v lt = ground arith
get_elem?-set (x ∷ h) (suc i) zero v lt = ground arith
get_elem?-set (x ∷ h) (suc i) (suc j) v lt = ground (arith, get_elem?-set h i j v)

prio-set :
    (h : Heap) (i j : ℕ) (v : HeapNode)
    → i < length h
    → prio (set h i v) j ≡ (if i == j then v.p else prio h j)
unfolding prio
prio-set [] i j v lt = absurd (omega arith)
prio-set (x ∷ h) zero zero v lt = refl
prio-set (x ∷ h) zero (suc j) v lt = ground arith
prio-set (x ∷ h) (suc i) zero v lt = ground arith
prio-set (x ∷ h) (suc i) (suc j) v lt = ground (arith, prio-set h i j v)

-- A write trades the old entry for the new one.
set-perm :
    (h : Heap) (i : ℕ) (x v : HeapNode) → get_elem? h i ≡ some x → Perm (x ∷ set h i v) (v ∷ h)
set-perm [] i x v at = cc
set-perm (y ∷ h) zero x v at =
    subst (λ (z : HeapNode). Perm (z ∷ v ∷ h) (v ∷ y ∷ h)) (some-injective y x at) (Perm.swap v y h)
set-perm (y ∷ h) (suc i) x v at =
    Perm.trans (Perm.swap y x (set h i v))
      (Perm.trans (Perm.cons y (set-perm h i x v at)) (Perm.swap v y h))

pub inside_of_get : (h : Heap) (i : ℕ) (x : HeapNode) → get_elem? h i ≡ some x → i < length h
inside_of_get [] i x at = cc
inside_of_get (y ∷ h) zero x at = omega arith
inside_of_get (y ∷ h) (suc i) x at = omega (arith, inside_of_get h i x at)

pub swap_eq :
    (h : Heap) (i j : ℕ) (x y : HeapNode)
    → get_elem? h i ≡ some x
    → get_elem? h j ≡ some y
    → swap h i j ≡ set (set h i y) j x
unfolding swap
swap_eq h i j x y at_i at_j =
    ap₂
      (λ (o o' : Option HeapNode). elim o [
        | none ↦ h
        | some a ↦ elim o' [ none ↦ h | some b ↦ set (set h i b) j a ]
      ])
      at_i at_j

module _ (h : Heap) (i j : ℕ) (hi : i < length h) (hj : j < length h) where
  pub prio-swap :
      (c : ℕ)
      → prio (swap h i j) c ≡ (if j == c then prio h i else if i == c then prio h j else prio h c)
  prio-swap c =
      let (x, at_i) = get_elem?-inside h i hi in
      let (y, at_j) = get_elem?-inside h j hj in
      ap (λ (k : Heap). prio k c) (swap_eq h i j x y at_i at_j)
      ∙ prio-set (set h i y) j c x (omega (arith, length-set h i y))
      ∙ ground (arith, prio-set h i c y hi, prio-get_elem? h i x at_i, prio-get_elem? h j y at_j)

  -- An exchange keeps the entries.
  pub swap_perm : Perm (swap h i j) h
  swap_perm =
      let (x, at_i) = get_elem?-inside h i hi in
      let (y, at_j) = get_elem?-inside h j hj in
      let still : get_elem? (set h i y) j ≡ some y =
        ground (arith, get_elem?-set h i j y hi, at_j) in
      subst (λ (k : Heap). Perm k h) (sym (swap_eq h i j x y at_i at_j))
        (Perm.cons_inv (Perm.trans (set-perm (set h i y) j y x still) (set-perm h i x y at_i)))

pub prio-append : (h k : Heap) (c : ℕ) → c < length h → prio (h ++ k) c ≡ prio h c
unfolding prio
prio-append [] k c lt = absurd (omega arith)
prio-append (x ∷ h) k zero lt = refl
prio-append (x ∷ h) k (suc c) lt = prio-append h k c (omega arith)

pub concat_perm : (h : Heap) (n : HeapNode) → Perm (h ++ n ∷ []) (n ∷ h)
concat_perm [] n = Perm.rfl
concat_perm (x ∷ h) n = Perm.trans (Perm.cons x (concat_perm h n)) (Perm.swap n x h)

-- All but the last entry, and the last.
pub take_last_perm :
    (k : ℕ) (h : Heap) (x : HeapNode)
    → length h ≡ suc k
    → get_elem? h k ≡ some x
    → Perm (x ∷ take k h) h
take_last_perm zero (y ∷ []) x size at =
    subst (λ (z : HeapNode). Perm (z ∷ []) (y ∷ [])) (some-injective y x at) Perm.rfl
take_last_perm (suc k) (y ∷ h) x size at =
    Perm.trans (Perm.swap y x (take k h)) (Perm.cons y (take_last_perm k h x (omega arith) at))
take_last_perm k [] x size at = absurd (omega arith)
take_last_perm zero (y ∷ z ∷ h) x size at = absurd (omega arith)
