-- ===== src/Blockchain/Range.antt =====
-- The range of `GetUTXOForAmt` over a map: what it takes and what it leaves.
pub mod Recorded
pub mod Complete
use csci1951l_cryptocurrency.Prelude.{
  ℕ, ◌+◌, ◌≤◌, ◌<◌, List, [], ◌∷◌, true, false, not, ◌&&◌, ◌≡◌, ◌≢◌, refl, sym, ap, subst, arith,
  All, leb, Bool-cases, inl, inr, ◌⊎◌,
}
use csci1951l_cryptocurrency.Prelude.Word.{u32_mod, add32}
use csci1951l_cryptocurrency.Prelude.Result.{ok, >>=-eq-ok, ok-injective}
use csci1951l_cryptocurrency.Text.{Bytes}
use csci1951l_cryptocurrency.Text.Equality.{beq, beq_iff}
use csci1951l_cryptocurrency.Tx.Txo.{TransactionOutput, prs_txo_loc}
use csci1951l_cryptocurrency.Blockchain.{
  Utxo, UtxoInfo, Collected, take_output, skip_output, collect,
}
use csci1951l_cryptocurrency.Blockchain.Balance.{share, total}

-- How the range goes on at an entry.
data Round (amt : ℕ) (pk : Bytes) (curr : ℕ) (k : Bytes) (v : TransactionOutput) (u : Utxo)
    (c : Collected) : Type 0 where
  stop :
      amt ≤ curr
      → c ≡ record { infos = []; curr_amt = curr; left = (k, v) ∷ u }
      → Round amt pk curr k v u c
  take_it :
      curr < amt
      → v.locking_script ≡ pk
      → v.liminal ≡ false
      → (loc : Bytes × ℕ) (r : Collected) → prs_txo_loc k ≡ ok loc
      → collect amt pk (add32 curr v.amount) u ≡ ok r
      → c ≡ take_output k v loc r
      → Round amt pk curr k v u c
  skip_it :
      curr < amt
      → (v.locking_script ≢ pk) ⊎ (v.liminal ≡ true)
      → (r : Collected) → collect amt pk curr u ≡ ok r
      → c ≡ skip_output k v r
      → Round amt pk curr k v u c

round :
    (amt : ℕ) (pk : Bytes) (curr : ℕ) (k : Bytes) (v : TransactionOutput) (u : Utxo) (c : Collected)
    → collect amt pk curr ((k, v) ∷ u) ≡ ok c
    → Round amt pk curr k v u c
unfolding collect
round amt pk curr k v u c e = elim (Bool-cases (leb amt curr)) [
  | inl reached ↦ stop (ground arith) (sym (ok-injective (rw reached at e)))
  | inr more ↦ elim (Bool-cases (beq v.locking_script pk && not v.liminal)) [
    | inl mine ↦
        let (loc, parsed, e') = >>=-eq-ok (prs_txo_loc k) _ (rw (more, mine) at e) in
        let (r, rest, e'') = >>=-eq-ok (collect amt pk (add32 curr v.amount) u) _ e' in
        take_it (ground arith) (ground (arith, beq_iff v.locking_script pk)) (ground arith) loc r
          parsed rest (sym (ok-injective e''))
    | inr other ↦
        let (r, rest, e') = >>=-eq-ok (collect amt pk curr u) _ (rw (more, other) at e) in
        skip_it (ground arith) (ground (arith, beq_iff v.locking_script pk)) r rest
          (sym (ok-injective e'))
  ]
]

abbrev pub sum_amts : List UtxoInfo → ℕ
sum_amts [] = 0
sum_amts (i ∷ is) = i.amt + sum_amts is

-- An output that was found pays the key, and its amount is the one that is reported.
pub record IsPayable (pk : Bytes) (i : UtxoInfo) : Type 0 where
  pub pays : i.utxo.locking_script ≡ pk
  pub exact : i.amt ≡ i.utxo.amount

-- What was collected from a map, from the amount `curr` on.
pub record IsFair (pk : Bytes) (curr : ℕ) (u : Utxo) (c : Collected) : Type 0 where
  pub sum : c.curr_amt ≡ curr + sum_amts c.infos
  pub fits : c.curr_amt < u32_mod
  pub payable : All (IsPayable pk) c.infos
  pub same_total : (q : Bytes) → total q c.left ≡ total q u

share-mine :
    (pk k : Bytes) (v : TransactionOutput) → v.locking_script ≡ pk → share pk (k, v) ≡ v.amount
share-mine pk k v e = ground (arith, beq_iff v.locking_script pk)

stop-IsFair :
    (pk : Bytes) (curr : ℕ) (u : Utxo)
    → curr < u32_mod
    → IsFair pk curr u (record { infos = []; curr_amt = curr; left = u })
stop-IsFair pk curr u small = record {
  sum = omega arith;
  fits = small;
  payable = tt;
  same_total = λ q. refl;
}

take-IsFair :
    (pk : Bytes) (curr : ℕ) (k : Bytes) (v : TransactionOutput) (u : Utxo) (loc : Bytes × ℕ)
    (r : Collected)
    → v.locking_script ≡ pk
    → curr + total pk ((k, v) ∷ u) < u32_mod
    → IsFair pk (add32 curr v.amount) u r
    → IsFair pk curr ((k, v) ∷ u) (take_output k v loc r)
unfolding take_output
take-IsFair pk curr k v u loc r mine small f = record {
  sum = omega (arith, f.sum, share-mine pk k v mine);
  fits = f.fits;
  payable = (record { pays = mine; exact = refl }, f.payable);
  same_total = λ q. ap (λ (n : ℕ). share q (k, v) + n) (f.same_total q);
}

skip-IsFair :
    (pk : Bytes) (curr : ℕ) (k : Bytes) (v : TransactionOutput) (u : Utxo) (r : Collected)
    → IsFair pk curr u r
    → IsFair pk curr ((k, v) ∷ u) (skip_output k v r)
unfolding skip_output
skip-IsFair pk curr k v u r f = record {
  sum = f.sum;
  fits = f.fits;
  payable = f.payable;
  same_total = λ q. ap (λ (n : ℕ). share q (k, v) + n) (f.same_total q);
}

collect-nil :
    (amt : ℕ) (pk : Bytes) (curr : ℕ) (c : Collected)
    → collect amt pk curr [] ≡ ok c
    → record { infos = []; curr_amt = curr; left = [] } ≡ c
unfolding collect
collect-nil amt pk curr c e = ok-injective e

pub collect-IsFair :
    (amt : ℕ) (pk : Bytes) (curr : ℕ) (u : Utxo) (c : Collected)
    → collect amt pk curr u ≡ ok c
    → curr + total pk u < u32_mod
    → IsFair pk curr u c
collect-IsFair amt pk curr [] c e small =
    subst (IsFair pk curr []) (collect-nil amt pk curr c e) (stop-IsFair pk curr [] (omega arith))
collect-IsFair amt pk curr ((k, v) ∷ u) c e small = elim (round amt pk curr k v u c e) [
  | stop reached is_c ↦
      subst (IsFair pk curr ((k, v) ∷ u)) (sym is_c) (stop-IsFair pk curr _ (omega arith))
  | take_it more mine fresh loc r parsed rest is_c ↦
      let worth = share-mine pk k v mine in
      subst (IsFair pk curr ((k, v) ∷ u)) (sym is_c) (
        take-IsFair pk curr k v u loc r mine small
          (collect-IsFair amt pk (add32 curr v.amount) u r rest (omega arith)))
  | skip_it more other r rest is_c ↦
      subst (IsFair pk curr ((k, v) ∷ u)) (sym is_c)
        (skip-IsFair pk curr k v u r (collect-IsFair amt pk curr u r rest (omega arith)))
]

-- Every output of the key is marked.
abbrev pub AllMarked : Bytes → Utxo → Type 0
AllMarked pk =
    All (λ (e : Bytes × TransactionOutput). (beq e.1.locking_script pk && not e.1.liminal) ≡ false)

take-AllMarked :
    (pk k : Bytes) (v : TransactionOutput) (loc : Bytes × ℕ) (r : Collected)
    → AllMarked pk r.left
    → AllMarked pk (take_output k v loc r).left
unfolding take_output
take-AllMarked pk k v loc r marked = (ground arith, marked)

skip-AllMarked :
    (pk k : Bytes) (v : TransactionOutput) (r : Collected)
    → (v.locking_script ≢ pk) ⊎ (v.liminal ≡ true)
    → AllMarked pk r.left
    → AllMarked pk (skip_output k v r).left
unfolding skip_output
skip-AllMarked pk k v r other marked = (ground (arith, beq_iff v.locking_script pk), marked)

curr_amt-take_output :
    (k : Bytes) (v : TransactionOutput) (loc : Bytes × ℕ) (r : Collected)
    → (take_output k v loc r).curr_amt ≡ r.curr_amt
unfolding take_output
curr_amt-take_output k v loc r = refl

curr_amt-skip_output :
    (k : Bytes) (v : TransactionOutput) (r : Collected) → (skip_output k v r).curr_amt ≡ r.curr_amt
unfolding skip_output
curr_amt-skip_output k v r = refl

-- A range that did not reach the amount went through the whole map.
pub collect-AllMarked :
    (amt : ℕ) (pk : Bytes) (curr : ℕ) (u : Utxo) (c : Collected)
    → collect amt pk curr u ≡ ok c
    → c.curr_amt < amt
    → AllMarked pk c.left
collect-AllMarked amt pk curr [] c e short =
    subst (λ (d : Collected). AllMarked pk d.left) (collect-nil amt pk curr c e) tt
collect-AllMarked amt pk curr ((k, v) ∷ u) c e short = elim (round amt pk curr k v u c e) [
  | stop reached is_c ↦ absurd (ground arith)
  | take_it more mine fresh loc r parsed rest is_c ↦
      subst (λ (d : Collected). AllMarked pk d.left) (sym is_c)
        (take-AllMarked pk k v loc r (
          collect-AllMarked amt pk (add32 curr v.amount) u r rest (
            omega
              (arith, ap (λ (d : Collected). d.curr_amt) is_c, curr_amt-take_output k v loc r))))
  | skip_it more other r rest is_c ↦
      subst (λ (d : Collected). AllMarked pk d.left) (sym is_c)
        (skip-AllMarked pk k v r other (
          collect-AllMarked amt pk curr u r rest
            (omega (arith, ap (λ (d : Collected). d.curr_amt) is_c, curr_amt-skip_output k v r))))
]

-- On a map without an unmarked output of the key nothing is taken.
pub collect-none :
    (amt : ℕ) (pk : Bytes) (u : Utxo)
    → 0 < amt
    → AllMarked pk u
    → collect amt pk 0 u ≡ ok (record { infos = []; curr_amt = 0; left = u })
unfolding collect skip_output
collect-none amt pk [] pos marked = refl
collect-none amt pk ((k, v) ∷ u) pos marked =
    ground (arith, collect-none amt pk u pos marked.1, marked.0)
