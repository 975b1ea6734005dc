-- ===== src/Blockchain/Range/Complete.antt =====
-- The range takes enough outputs if there are enough.
use csci1951l_cryptocurrency.Prelude.{
  ℕ, ◌+◌, ◌≤◌, ◌<◌, [], ◌∷◌, true, false, not, ◌&&◌, ◌≡◌, refl, ap, ◌∙◌, arith, length, leb,
  if◌then◌else◌, Bool-cases, inl, inr, ◌⊎◌,
}
use csci1951l_cryptocurrency.Prelude.Word.{u32_mod, add32}
use csci1951l_cryptocurrency.Prelude.Result.{ok}
use csci1951l_cryptocurrency.Text.{Bytes}
use csci1951l_cryptocurrency.Text.Equality.{beq}
use csci1951l_cryptocurrency.Tx.Txo.{TransactionOutput, prs_txo_loc}
use csci1951l_cryptocurrency.Tx.Txo.Locator.{prs_txo_loc-mk}
use csci1951l_cryptocurrency.Blockchain.{
  Utxo, Collected, take_output, skip_output, collect, count_utxo,
}
use csci1951l_cryptocurrency.Blockchain.Balance.{total}
use csci1951l_cryptocurrency.Blockchain.Canonical.{IsLocator, IsCanonical}

-- What the outputs of the key that are not marked are worth.
pub spendable : Bytes → Utxo → ℕ
spendable pk [] = 0
spendable pk ((k, v) ∷ u) =
    (if beq v.locking_script pk && not v.liminal then v.amount else 0) + spendable pk u

spendable-nil : (pk : Bytes) (curr : ℕ) → curr ≡ curr + spendable pk []
unfolding spendable
spendable-nil pk curr = omega arith

-- What the range ends with, from the amount `curr` on: the amount that was asked for, or all there
-- is, in no more outputs than the key has, and the rest stays unmarked.
pub record IsComplete (amt : ℕ) (pk : Bytes) (curr : ℕ) (u : Utxo) (c : Collected) : Type 0 where
  pub all_or_enough : (amt ≤ c.curr_amt) ⊎ (c.curr_amt ≡ curr + spendable pk u)
  pub left_over : spendable pk c.left + c.curr_amt ≡ curr + spendable pk u
  pub few : length c.infos ≤ count_utxo pk 0 u

parsed-IsLocator : (k : Bytes) → IsLocator k → (loc : Bytes × ℕ) × (prs_txo_loc k ≡ ok loc)
parsed-IsLocator k is = (
  (is.tx_hash, is.index),
  ap prs_txo_loc is.named ∙ prs_txo_loc-mk is.tx_hash is.index is.dashless is.fits,
)

count_utxo-from : (pk : Bytes) (ct : ℕ) (u : Utxo) → count_utxo pk ct u ≡ ct + count_utxo pk 0 u
unfolding count_utxo
count_utxo-from pk ct [] = omega arith
count_utxo-from pk ct ((k, v) ∷ u) = elim (Bool-cases (beq v.locking_script pk)) [
  | inl mine ↦ rw mine (omega (arith, count_utxo-from pk (ct + 1) u, count_utxo-from pk 1 u))
  | inr other ↦ rw other (count_utxo-from pk ct u)
]

spendable-mine :
    (pk k : Bytes) (v : TransactionOutput) (u : Utxo)
    → (beq v.locking_script pk && not v.liminal) ≡ true
    → spendable pk ((k, v) ∷ u) ≡ v.amount + spendable pk u
unfolding spendable
spendable-mine pk k v u mine = rw mine

spendable-other :
    (pk k : Bytes) (v : TransactionOutput) (u : Utxo)
    → (beq v.locking_script pk && not v.liminal) ≡ false
    → spendable pk ((k, v) ∷ u) ≡ spendable pk u
unfolding spendable
spendable-other pk k v u other = rw other (omega arith)

count_utxo-mine :
    (pk k : Bytes) (v : TransactionOutput) (u : Utxo)
    → (beq v.locking_script pk && not v.liminal) ≡ true
    → count_utxo pk 0 ((k, v) ∷ u) ≡ count_utxo pk 0 u + 1
unfolding count_utxo
count_utxo-mine pk k v u mine = elim (Bool-cases (beq v.locking_script pk)) [
  | inl owned ↦ rw owned (omega (arith, count_utxo-from pk (0 + 1) u))
  | inr other ↦ absurd (ground arith)
]

count_utxo-le :
    (pk k : Bytes) (v : TransactionOutput) (u : Utxo)
    → count_utxo pk 0 u ≤ count_utxo pk 0 ((k, v) ∷ u)
unfolding count_utxo
count_utxo-le pk k v u = elim (Bool-cases (beq v.locking_script pk)) [
  | inl owned ↦ rw owned (omega (arith, count_utxo-from pk (0 + 1) u))
  | inr other ↦ rw other (omega arith)
]

-- An entry that pays the key and is not marked, in front of a map.
take-IsComplete :
    (amt : ℕ) (pk : Bytes) (curr : ℕ) (k : Bytes) (v : TransactionOutput) (u : Utxo)
    (loc : Bytes × ℕ) (c : Collected)
    → (beq v.locking_script pk && not v.liminal) ≡ true
    → curr + (v.amount + spendable pk u) < u32_mod
    → IsComplete amt pk (add32 curr v.amount) u c
    → IsComplete amt pk curr ((k, v) ∷ u) (take_output k v loc c)
unfolding take_output
take-IsComplete amt pk curr k v u loc c mine small f = record {
  all_or_enough = elim f.all_or_enough [
    | inl enough ↦ inl enough
    | inr all ↦ inr (omega (arith, all, spendable-mine pk k v u mine))
  ];
  left_over = omega (
    arith,
    f.left_over,
    spendable-mine pk k v u mine,
    spendable-other pk k (record v { liminal = true }) c.left (ground arith),
  );
  few = omega (arith, f.few, count_utxo-mine pk k v u mine);
}

-- Any other entry in front of a map.
skip-IsComplete :
    (amt : ℕ) (pk : Bytes) (curr : ℕ) (k : Bytes) (v : TransactionOutput) (u : Utxo) (c : Collected)
    → (beq v.locking_script pk && not v.liminal) ≡ false
    → IsComplete amt pk curr u c
    → IsComplete amt pk curr ((k, v) ∷ u) (skip_output k v c)
unfolding skip_output
skip-IsComplete amt pk curr k v u c other f = record {
  all_or_enough = elim f.all_or_enough [
    | inl enough ↦ inl enough
    | inr all ↦ inr (omega (arith, all, spendable-other pk k v u other))
  ];
  left_over =
      omega
        (arith, f.left_over, spendable-other pk k v u other, spendable-other pk k v c.left other);
  few = omega (arith, f.few, count_utxo-le pk k v u);
}

pub collect_returns :
    (amt : ℕ) (pk : Bytes) (curr : ℕ) (u : Utxo)
    → IsCanonical u
    → curr + spendable pk u < u32_mod
    → (c : Collected) × (collect amt pk curr u ≡ ok c) × IsComplete amt pk curr u c
unfolding collect
collect_returns amt pk curr [] canonical small = (
  record { infos = []; curr_amt = curr; left = [] },
  refl,
  record {
    all_or_enough = inr (spendable-nil pk curr);
    left_over = omega arith;
    few = omega arith;
  },
)
collect_returns amt pk curr ((k, v) ∷ u) canonical small = elim (Bool-cases (leb amt curr)) [
  | inl reached ↦ (
    record { infos = []; curr_amt = curr; left = (k, v) ∷ u },
    rw reached,
    record { all_or_enough = inl (ground arith); left_over = omega arith; few = omega arith },
  )
  | inr more ↦ elim (Bool-cases (beq v.locking_script pk && not v.liminal)) [
    | inl mine ↦
        let (loc, parsed) = parsed-IsLocator k canonical.1 in
        let fits : curr + (v.amount + spendable pk u) < u32_mod =
          omega (arith, spendable-mine pk k v u mine) in
        let (c, rest, f) =
          collect_returns amt pk (add32 curr v.amount) u canonical.2 (omega arith) in
        (
          take_output k v loc c,
          rw (more, mine, parsed, rest),
          take-IsComplete amt pk curr k v u loc c mine fits f,
        )
    | inr other ↦
        let (c, rest, f) =
          collect_returns amt pk curr u canonical.2
            (omega (arith, spendable-other pk k v u other)) in
        (skip_output k v c, rw (more, other, rest), skip-IsComplete amt pk curr k v u c other f)
  ]
]

pub spendable-le : (pk : Bytes) (u : Utxo) → spendable pk u ≤ total pk u
unfolding spendable
spendable-le pk [] = omega arith
spendable-le pk ((k, v) ∷ u) = ground (arith, spendable-le pk u)
