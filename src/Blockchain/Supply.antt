-- ===== src/Blockchain/Supply.antt =====
-- What all the outputs of a map are worth together, and what `Add` does to it.
use native.Mathlib.Nat.{mod-eq_of_lt}
use csci1951l_cryptocurrency.Prelude.{
  ℕ, ◌+◌, ◌≤◌, ◌<◌, List, [], ◌∷◌, none, some, ◌≡◌, refl, sym, ap, ◌∙◌, subst, arith, length,
  Bool-cases, inl, inr,
}
use mathlib.Core.Option.{some-injective, none-ne-some}
use csci1951l_cryptocurrency.Prelude.Word.{u32_mod, u32}
use csci1951l_cryptocurrency.Prelude.Result.{ok}
use csci1951l_cryptocurrency.Text.{Bytes}
use csci1951l_cryptocurrency.Text.Equality.{beq, beq_iff}
use csci1951l_cryptocurrency.Dict.{lookup, insert, erase}
use csci1951l_cryptocurrency.Dict.Laws.{lookup-insert}
use csci1951l_cryptocurrency.Crypto.{Crypto}
use csci1951l_cryptocurrency.Tx
use csci1951l_cryptocurrency.Tx.{Transaction}
use csci1951l_cryptocurrency.Tx.Sums.{claimed, paid}
use csci1951l_cryptocurrency.Tx.Txi.{TransactionInput}
use csci1951l_cryptocurrency.Tx.Txo.{TransactionOutput, mk_txo_loc}
use csci1951l_cryptocurrency.Tx.Txo.Locator.{IsDashless, mk_txo_loc_inj}
use csci1951l_cryptocurrency.Block.{Block}
use csci1951l_cryptocurrency.Blockchain.{
  Blockchain, Utxo, last_utxo, spend_inputs, add_outputs, apply_tx, apply_txs, append_to, add,
}
use csci1951l_cryptocurrency.Blockchain.Invariant.{IsTree, IsChain-ref, add_cases, add-IsTree}
use csci1951l_cryptocurrency.Blockchain.Unspent.{lookup-spend_inputs, hash-IsDashless}
use csci1951l_cryptocurrency.Blockchain.Canonical.{
  IsCanonical, erase-IsCanonical, apply_tx-IsCanonical,
}

-- All outputs together.
abbrev pub worth : Utxo → ℕ
worth [] = 0
worth ((k, o) ∷ u) = o.amount + worth u

erase_absent : (k : Bytes) (u : Utxo) → lookup k u ≡ none → erase k u ≡ u
unfolding lookup erase
erase_absent k [] e = refl
erase_absent k ((j, o) ∷ u) e = elim (Bool-cases (beq j k)) [
  | inl same ↦ absurd (none-ne-some o (sym (rw same at e)))
  | inr other ↦ rw other (ap (λ (v : Utxo). (j, o) ∷ v) (erase_absent k u (rw other at e)))
]

worth-erase :
    (k : Bytes) (o : TransactionOutput) (u : Utxo)
    → IsCanonical u
    → lookup k u ≡ some o
    → worth (erase k u) + o.amount ≡ worth u
unfolding lookup erase
worth-erase k o [] c e = absurd (none-ne-some o e)
worth-erase k o ((j, v) ∷ u) c e = elim (Bool-cases (beq j k)) [
  | inl same ↦
      let at_k : lookup k u ≡ none = subst (λ l. lookup l u ≡ none) ((beq_iff j k).0 same) c.0 in
      let is_o : v ≡ o = some-injective v o (rw same at e) in
      rw (same, erase_absent k u at_k)
        (omega (arith, ap (λ (w : TransactionOutput). w.amount) is_o))
  | inr other ↦ rw other (omega (arith, worth-erase k o u c.2 (rw other at e)))
]

worth-insert :
    (k : Bytes) (o : TransactionOutput) (u : Utxo)
    → lookup k u ≡ none
    → worth (insert k o u) ≡ worth u + o.amount
unfolding lookup insert
worth-insert k o [] e = omega arith
worth-insert k o ((j, v) ∷ u) e = elim (Bool-cases (beq j k)) [
  | inl same ↦ absurd (none-ne-some v (sym (rw same at e)))
  | inr other ↦ rw other (omega (arith, worth-insert k o u (rw other at e)))
]

-- Each input names an output of the map, claims what it is worth, and no two name the same.
abbrev pub IsExact : List TransactionInput → Utxo → Type 0
IsExact [] u = Unit
IsExact (i ∷ ins) u =
    (o : TransactionOutput) × (lookup (mk_txo_loc i.transaction_hash i.output_index) u ≡ some o)
    × (i.amount ≡ o.amount)
    × IsExact ins (erase (mk_txo_loc i.transaction_hash i.output_index) u)

worth-spend_inputs :
    (ins : List TransactionInput) (u : Utxo)
    → IsCanonical u
    → IsExact ins u
    → worth (spend_inputs ins u) + claimed ins ≡ worth u
unfolding spend_inputs
worth-spend_inputs [] u c exact = omega arith
worth-spend_inputs (i ∷ ins) u c (o, found, amount, exact) =
    let k = mk_txo_loc i.transaction_hash i.output_index in
    omega (
      arith,
      amount,
      worth-erase k o u c found,
      worth-spend_inputs ins (erase k u) (erase-IsCanonical k u c) exact,
    )

-- No output with this hash and an index from `i` on is in the map.
abbrev pub IsFresh : Bytes → ℕ → Utxo → Type 0
IsFresh h i u = (j : ℕ) → i ≤ j → j < u32_mod → lookup (mk_txo_loc h j) u ≡ none

insert-IsFresh :
    (h : Bytes) (i : ℕ) (o : TransactionOutput) (u : Utxo)
    → IsDashless h
    → i < u32_mod
    → IsFresh h i u
    → IsFresh h (i + 1) (insert (mk_txo_loc h i) o u)
insert-IsFresh h i o u d small fresh j from fits =
    lookup-insert (mk_txo_loc h i) (mk_txo_loc h j) o u
    ∙ ground (
      arith,
      beq_iff (mk_txo_loc h i) (mk_txo_loc h j),
      mk_txo_loc_inj h h i j d d small fits,
      fresh j (omega arith) fits,
    )

worth-add_outputs :
    (h : Bytes) (i : ℕ) (outs : List TransactionOutput) (u : Utxo)
    → IsDashless h
    → i + length outs ≤ u32_mod
    → IsFresh h i u
    → worth (add_outputs h i outs u) ≡ worth u + paid outs
unfolding add_outputs
worth-add_outputs h i [] u d fits fresh = omega arith
worth-add_outputs h i (o ∷ outs) u d fits fresh =
    let small : i < u32_mod = omega arith in
    let same : u32 i ≡ i = mod-eq_of_lt small in
    rw same (
      omega (
        arith,
        worth-insert (mk_txo_loc h i) o u (fresh i (omega arith) small),
        worth-add_outputs h (i + 1) outs (insert (mk_txo_loc h i) o u) d (omega arith)
            (insert-IsFresh h i o u d small fresh),
      ))

spend_inputs-IsFresh :
    (h : Bytes) (i : ℕ) (ins : List TransactionInput) (u : Utxo)
    → IsFresh h i u
    → IsFresh h i (spend_inputs ins u)
spend_inputs-IsFresh h i ins u fresh j from fits =
    lookup-spend_inputs (mk_txo_loc h j) ins u ∙ ground (arith, fresh j from fits)

abbrev pub all_claimed : List Transaction → ℕ
all_claimed [] = 0
all_claimed (t ∷ txs) = claimed t.inputs + all_claimed txs

abbrev pub all_paid : List Transaction → ℕ
all_paid [] = 0
all_paid (t ∷ txs) = paid t.outputs + all_paid txs

module _ ⦃crypto : Crypto⦄ where
  -- The inputs of a transaction are exact, and no output with its hash is in the map.
  pub record IsBacked (t : Transaction) (u : Utxo) : Type 0 where
    pub exact : IsExact t.inputs u
    pub fresh : IsFresh (Tx.hash t) 0 u
    pub few : length t.outputs ≤ u32_mod

  -- What such a transaction adds to the map is what it pays beyond what it claims.
  pub worth-apply_tx :
      (t : Transaction) (u : Utxo)
      → IsCanonical u
      → IsBacked t u
      → worth (apply_tx t u) + claimed t.inputs ≡ worth u + paid t.outputs
  unfolding apply_tx
  worth-apply_tx t u c v =
      let spent = spend_inputs t.inputs u in
      omega (
        arith,
        worth-spend_inputs t.inputs u c v.exact,
        worth-add_outputs (Tx.hash t) 0 t.outputs spent (hash-IsDashless t) (omega (arith, v.few))
            (spend_inputs-IsFresh (Tx.hash t) 0 t.inputs u v.fresh),
      )

  -- Each of the transactions is backed in the map that those before it leave.
  abbrev pub AllBacked : List Transaction → Utxo → Type 0
  AllBacked [] u = Unit
  AllBacked (t ∷ txs) u = IsBacked t u × AllBacked txs (apply_tx t u)

  pub worth-apply_txs :
      (txs : List Transaction) (u : Utxo)
      → IsCanonical u
      → AllBacked txs u
      → worth (apply_txs txs u) + all_claimed txs ≡ worth u + all_paid txs
  unfolding apply_txs
  worth-apply_txs [] u c all = omega arith
  worth-apply_txs (t ∷ txs) u c all = omega (
    arith,
    worth-apply_tx t u c all.0,
    worth-apply_txs txs (apply_tx t u) (apply_tx-IsCanonical t u c) all.1,
  )

  -- The map of the last block after a block was added, wherever it was added.
  pub last_utxo-add :
      (b : Block) (bc bc' : Blockchain)
      → IsTree bc
      → add (some b) bc ≡ ok bc'
      → last_utxo bc' ≡ apply_txs b.transactions (last_utxo bc)
  unfolding append_to
  last_utxo-add b bc bc' v e =
      let (prev, found, is_new) = add_cases b bc bc' e in
      let at_prev = IsChain-ref prev (v.entry b.hdr.prv_blk_hsh prev found).chain in
      let before = IsChain-ref bc.last_block v.last_chain in
      let after = IsChain-ref bc'.last_block (add-IsTree (some b) bc bc' v e).last_chain in
      let maps : bc'.maps 0 ≡ (append_to b prev bc).maps 0 =
        ap (λ (c : Blockchain). c.maps 0) (sym is_new) in
      ap bc'.maps after ∙ maps ∙ ground (arith, at_prev, before)
