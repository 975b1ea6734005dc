-- ===== src/Miner/Work.antt =====
-- What a round of mining finds, and what it takes from the pool.
use csci1951l_cryptocurrency.Prelude.{
  ℕ, zero, suc, ◌+◌, ◌≤◌, ◌<◌, List, [], ◌∷◌, ◌++◌, map, Bool, true, false, ◌≡◌, refl, sym, subst,
  ap, ◌∙◌, arith, Bool-cases, inl, inr, ltb, ltb→lt, ◌==◌, ==_iff, length,
}
use csci1951l_cryptocurrency.Prelude.Word.{add32, u32_mod}
use csci1951l_cryptocurrency.Crypto.{Crypto}
use csci1951l_cryptocurrency.Text.{Bytes}
use csci1951l_cryptocurrency.Tx
use csci1951l_cryptocurrency.Tx.{Transaction}
use csci1951l_cryptocurrency.Tx.Sums.{sum_sizes}
use csci1951l_cryptocurrency.Tx.Heap.{Heap, HeapNode}
use csci1951l_cryptocurrency.Block
use csci1951l_cryptocurrency.Block.{Block}
use csci1951l_cryptocurrency.Miner.{
  Miner, nonce_loop, calc_nonce, dif_trg, fill_pool, new_mining_pool,
}

-- The block with another nonce.
abbrev pub with_nonce : Block → ℕ → Block
with_nonce b i = record b { hdr = record b.hdr { nonce = i } }

module _ ⦃crypto : Crypto⦄ where
  -- The search from `i` to below `i + k` ended at the block `c`.
  abbrev IsFirstNonce : (ℕ → Bool) → Bytes → ℕ → ℕ → Block → Block → Type 0
  IsFirstNonce done dt i k b c =
      (j : ℕ) × (i ≤ j)
      × (j < i + k)
      × (c ≡ with_nonce b j)
      × (Block.satisfies_pow c dt ≡ true)
      × ((l : ℕ) → i ≤ l → l < j → Block.satisfies_pow (with_nonce b l) dt ≡ false)

  -- A test that fails at `i` and from the next number on fails from `i` on.
  from_next :
      {test : ℕ → Bool} {i j : ℕ}
      → test i ≡ false
      → ((l : ℕ) → i + 1 ≤ l → l < j → test l ≡ false)
      → (l : ℕ) → i ≤ l
      → l < j
      → test l ≡ false
  from_next {test} {i} {j} now later l ge lt = elim (Bool-cases (i == l)) [
    | inl same ↦ subst (λ n. test n ≡ false) ((==_iff i l).0 same) now
    | inr other ↦ later l (ground (arith, ==_iff i l)) lt
  ]

  nonce_loop_step :
      (done : ℕ → Bool) (dt : Bytes) (k i : ℕ) (b : Block)
      → done i ≡ false
      → Block.satisfies_pow (with_nonce b i) dt ≡ false
      → nonce_loop done dt (suc k) i b ≡ nonce_loop done dt k (i + 1) (with_nonce b i)
  unfolding nonce_loop
  nonce_loop_step done dt k i b goes fails = rw (goes, fails)

  nonce_loop-true :
      (done : ℕ → Bool) (dt : Bytes) (k i : ℕ) (b c : Block)
      → nonce_loop done dt k i b ≡ (true, c)
      → IsFirstNonce done dt i k b c
  unfolding nonce_loop
  nonce_loop-true done dt zero i b c e = absurd (ground (arith, ap (λ p. p.0) e))
  nonce_loop-true done dt (suc k) i b c e = elim (Bool-cases (done i)) [
    | inl stopped ↦ absurd (ground (arith, ap (λ p. p.0) (rw stopped at e)))
    | inr goes ↦ elim (Bool-cases (Block.satisfies_pow (with_nonce b i) dt)) [
      | inl works ↦
          let same = ap (λ p. p.1) (rw (goes, works) at e) in
          (
            i,
            omega arith,
            omega arith,
            sym same,
            subst (λ d. Block.satisfies_pow d dt ≡ true) same works,
            λ l ge lt. absurd (omega arith),
          )
      | inr fails ↦
          let (j, ge, lt, same, works, first) =
            nonce_loop-true done dt k (i + 1) (with_nonce b i) c
              (sym (nonce_loop_step done dt k i b goes fails) ∙ e) in
          (
            j,
            omega arith,
            omega arith,
            same,
            works,
            from_next {test = λ n. Block.satisfies_pow (with_nonce b n) dt} fails first,
          )
    ]
  ]

  nonce_loop-false :
      (dt : Bytes) (k i : ℕ) (b c : Block)
      → nonce_loop (λ l. false) dt k i b ≡ (false, c)
      → (l : ℕ) → i ≤ l
      → l < i + k
      → Block.satisfies_pow (with_nonce b l) dt ≡ false
  unfolding nonce_loop
  nonce_loop-false dt zero i b c e l ge lt = absurd (omega arith)
  nonce_loop-false dt (suc k) i b c e l ge lt =
      elim (Bool-cases (Block.satisfies_pow (with_nonce b i) dt)) [
        | inl works ↦ absurd (ground (arith, ap (λ p. p.0) (rw works at e)))
        | inr fails ↦
            from_next {test = λ n. Block.satisfies_pow (with_nonce b n) dt} {j = i + suc k} fails
              (λ n ge' lt'.
                nonce_loop-false dt k (i + 1) (with_nonce b i) c
                  (sym (nonce_loop_step (λ m. false) dt k i b refl fails) ∙ e) n ge' (omega arith))
              l ge lt
      ]

  -- A nonce that is found is below the limit, the block has it and meets the target, and it is the
  -- smallest such nonce.
  pub calc_nonce_found :
      (done : ℕ → Bool) (b c : Block) (m : Miner)
      → calc_nonce done b m ≡ (true, c)
      → (j : ℕ) × (j < m.conf.nnc_lim)
        × (c ≡ with_nonce b j)
        × (Block.satisfies_pow c (dif_trg m) ≡ true)
        × ((l : ℕ) → l < j → Block.satisfies_pow (with_nonce b l) (dif_trg m) ≡ false)
  unfolding calc_nonce
  calc_nonce_found done b c m e =
      let (j, ge, lt, same, works, first) =
        nonce_loop-true done (dif_trg m) m.conf.nnc_lim 0 b c e in
      (j, omega arith, same, works, λ l. first l (omega arith))

  -- Where the search is not interrupted and finds no nonce, no nonce below the limit meets the target.
  pub calc_nonce_exhausted :
      (b c : Block) (m : Miner)
      → calc_nonce (λ i. false) b m ≡ (false, c)
      → (l : ℕ) → l < m.conf.nnc_lim
      → Block.satisfies_pow (with_nonce b l) (dif_trg m) ≡ false
  unfolding calc_nonce
  calc_nonce_exhausted b c m e l lt =
      nonce_loop-false (dif_trg m) m.conf.nnc_lim 0 b c e l (omega arith) (omega arith)

-- The first transaction does not fit after `size` bytes, if there is one.
abbrev pub Overflows : ℕ → ℕ → List Transaction → Type 0
Overflows lim size [] = 0 ≤ 0
Overflows lim size (t ∷ ts) = lim ≤ size + Tx.sz t

-- The transactions in the order of the heap's array.
abbrev pub in_order : Heap → List Transaction
in_order = map (λ (n : HeapNode). n.t)

-- A list of transactions is the front of the heap's array that fits below a limit after `size` bytes.
pub record IsFront (lim size : ℕ) (q : Heap) (pool : List Transaction) : Type 0 where
  pub rest : List Transaction
  pub split : in_order q ≡ pool ++ rest
  pub fits : 0 < length pool → size + sum_sizes pool < lim
  pub full : Overflows lim (size + sum_sizes pool) rest

pub sum_fits :
    (size lim : ℕ) (pool : List Transaction)
    → size < lim
    → (0 < length pool → size + sum_sizes pool < lim)
    → size + sum_sizes pool < lim
sum_fits size lim [] lt fits = omega arith
sum_fits size lim (t ∷ ts) lt fits = fits (omega arith)

fill_pool-IsFront :
    (lim size : ℕ) (q : Heap)
    → size + sum_sizes (in_order q) < u32_mod
    → IsFront lim size q (fill_pool lim size q)
unfolding fill_pool
fill_pool-IsFront lim size [] small = record {
  rest = [];
  split = refl;
  fits = λ some. absurd (omega arith);
  full = omega arith;
}
fill_pool-IsFront lim size (n ∷ q) small =
    let exact : add32 size (Tx.sz n.t) ≡ size + Tx.sz n.t = omega arith in
    elim (Bool-cases (ltb (add32 size (Tx.sz n.t)) lim)) [
      | inl below ↦
          let f = fill_pool-IsFront lim (add32 size (Tx.sz n.t)) q (omega arith) in
          rw below (record {
            rest = f.rest;
            split = ap (λ (ts : List Transaction). n.t ∷ ts) f.split;
            fits = λ nonempty. omega (
              arith,
              sum_fits (size + Tx.sz n.t) lim (fill_pool lim (add32 size (Tx.sz n.t)) q)
                  (omega (arith, ltb→lt (add32 size (Tx.sz n.t)) lim below))
                  (λ some.
                    subst (λ s. s + sum_sizes (fill_pool lim (add32 size (Tx.sz n.t)) q) < lim)
                      exact (f.fits some)),
            );
            full = subst (λ (s : ℕ). Overflows lim s f.rest) (omega arith) f.full;
          })
      | inr above ↦ rw above (record {
        rest = n.t ∷ in_order q;
        split = refl;
        fits = λ nonempty. absurd (omega arith);
        full = ground arith;
      })
    ]

module _ ⦃crypto : Crypto⦄ where
  -- Where the sizes of the whole pool and 100 bytes for the coinbase transaction are together below
  -- 2 ^ 32, the mining pool is the front of the heap's array: its sizes and the 100 bytes stay below
  -- the block size, and the transaction after it, if there is one, no longer fits.
  pub new_mining_pool_lem :
      (m : Miner)
      → 100 + sum_sizes (in_order m.tx_p.tx_q) < u32_mod
      → IsFront m.conf.blk_sz 100 m.tx_p.tx_q (new_mining_pool m)
  unfolding new_mining_pool
  new_mining_pool_lem m small = fill_pool-IsFront m.conf.blk_sz 100 m.tx_p.tx_q small
