-- ===== src/Blockchain/Canonical.antt =====
-- Maps whose keys are locators, each key once: what `Add` makes of every map.
use csci1951l_cryptocurrency.Prelude.{
  ℕ, ◌+◌, ◌<◌, List, [], ◌∷◌, Option, none, some, ◌≡◌, refl, subst, arith, Bool-cases, inl, inr,
  ◌==◌,
}
use csci1951l_cryptocurrency.Prelude.Word.{u32, u32_mod}
use csci1951l_cryptocurrency.Prelude.Result.{ok, ok-injective}
use csci1951l_cryptocurrency.Text.{Bytes}
use csci1951l_cryptocurrency.Text.Equality.{beq, beq_iff}
use csci1951l_cryptocurrency.Dict.{lookup, insert, erase}
use csci1951l_cryptocurrency.Dict.Laws.{lookup-insert, lookup-erase}
use csci1951l_cryptocurrency.Crypto.{Crypto}
use csci1951l_cryptocurrency.Tx
use csci1951l_cryptocurrency.Tx.{Transaction}
use csci1951l_cryptocurrency.Tx.Txi.{TransactionInput}
use csci1951l_cryptocurrency.Tx.Txo.{TransactionOutput, mk_txo_loc}
use csci1951l_cryptocurrency.Tx.Txo.Locator.{IsDashless}
use csci1951l_cryptocurrency.Block.{Block}
use csci1951l_cryptocurrency.Blockchain.Config.{Config}
use csci1951l_cryptocurrency.Blockchain.{
  Blockchain, BlockchainNode, Utxo, spend_inputs, add_outputs, apply_tx, apply_txs, append_to, add,
  new, first_utxo, write_map, utxo_ref, utxo_of,
}
use csci1951l_cryptocurrency.Blockchain.Unspent.{hash-IsDashless}
use csci1951l_cryptocurrency.Blockchain.Invariant.{add_cases}

-- A key made of a hash without a dash and a 32-bit index.
pub record IsLocator (k : Bytes) : Type 0 where
  pub tx_hash : Bytes
  pub index : ℕ
  pub named : k ≡ mk_txo_loc tx_hash index
  pub dashless : IsDashless tx_hash
  pub fits : index < u32_mod

-- Each key is a locator, and is in the map once.
abbrev pub IsCanonical : Utxo → Type 0
IsCanonical [] = Unit
IsCanonical ((k, v) ∷ u) = (lookup k u ≡ none) × IsLocator k × IsCanonical u

pub erase-IsCanonical : (k : Bytes) (u : Utxo) → IsCanonical u → IsCanonical (erase k u)
unfolding erase
erase-IsCanonical k [] c = tt
erase-IsCanonical k ((j, v) ∷ u) c = elim (Bool-cases (beq j k)) [
  | inl same ↦ rw same (erase-IsCanonical k u c.2)
  | inr other ↦ rw other (ground (arith, lookup-erase k j u, c.0), c.1, erase-IsCanonical k u c.2)
]

insert-IsCanonical :
    (k : Bytes) (v : TransactionOutput) (u : Utxo)
    → IsLocator k
    → IsCanonical u
    → IsCanonical (insert k v u)
unfolding insert lookup
insert-IsCanonical k v [] loc c = (refl, loc, tt)
insert-IsCanonical k v ((j, w) ∷ u) loc c = elim (Bool-cases (beq j k)) [
  | inl same ↦
      let e : j ≡ k = (beq_iff j k).0 same in
      rw same (subst (λ (l : Bytes). lookup l u ≡ none) e c.0, loc, c.2)
  | inr other ↦ rw other (
    ground (arith, lookup-insert k j v u, beq_iff j k, beq_iff k j, c.0),
    c.1,
    insert-IsCanonical k v u loc c.2,
  )
]

spend_inputs-IsCanonical :
    (ins : List TransactionInput) (u : Utxo) → IsCanonical u → IsCanonical (spend_inputs ins u)
unfolding spend_inputs
spend_inputs-IsCanonical [] u c = c
spend_inputs-IsCanonical (i ∷ ins) u c =
    let k = mk_txo_loc i.transaction_hash i.output_index in
    spend_inputs-IsCanonical ins (erase k u) (erase-IsCanonical k u c)

add_outputs-IsCanonical :
    (h : Bytes) (i : ℕ) (outs : List TransactionOutput) (u : Utxo)
    → IsDashless h
    → IsCanonical u
    → IsCanonical (add_outputs h i outs u)
unfolding add_outputs
add_outputs-IsCanonical h i [] u d c = c
add_outputs-IsCanonical h i (o ∷ outs) u d c =
    let loc : IsLocator (mk_txo_loc h (u32 i)) = record {
      tx_hash = h;
      index = u32 i;
      named = refl;
      dashless = d;
      fits = omega arith;
    } in
    add_outputs-IsCanonical h (i + 1) outs (insert (mk_txo_loc h (u32 i)) o u) d
      (insert-IsCanonical (mk_txo_loc h (u32 i)) o u loc c)

module _ ⦃crypto : Crypto⦄ where
  pub apply_tx-IsCanonical :
      (t : Transaction) (u : Utxo) → IsCanonical u → IsCanonical (apply_tx t u)
  unfolding apply_tx
  apply_tx-IsCanonical t u c =
      add_outputs-IsCanonical (Tx.hash t) 0 t.outputs (spend_inputs t.inputs u) (hash-IsDashless t)
        (spend_inputs-IsCanonical t.inputs u c)

  apply_txs-IsCanonical :
      (txs : List Transaction) (u : Utxo) → IsCanonical u → IsCanonical (apply_txs txs u)
  unfolding apply_txs
  apply_txs-IsCanonical [] u c = c
  apply_txs-IsCanonical (t ∷ txs) u c =
      apply_txs-IsCanonical txs (apply_tx t u) (apply_tx-IsCanonical t u c)

  -- Every map of the chain.
  abbrev pub AllCanonical : Blockchain → Type 0
  AllCanonical bc = (r : ℕ) → IsCanonical (bc.maps r)

  pub write_map-IsCanonical :
      (r : ℕ) (u : Utxo) (maps : ℕ → Utxo)
      → IsCanonical u
      → ((s : ℕ) → IsCanonical (maps s))
      → (s : ℕ) → IsCanonical (write_map r u maps s)
  write_map-IsCanonical r u maps c all s = elim (Bool-cases (r == s)) [
    | inl same ↦ rw same c
    | inr other ↦ rw other (all s)
  ]

  -- A new chain has such maps only.
  pub new-AllCanonical : (conf : Config) → AllCanonical (new conf)
  unfolding new first_utxo
  new-AllCanonical conf =
      write_map-IsCanonical 0 (first_utxo conf) (λ r. [])
        (add_outputs-IsCanonical _ 0 _ [] (hash-IsDashless _) tt) (λ s. tt)

  append_to-AllCanonical :
      (b : Block) (prev : BlockchainNode) (bc : Blockchain)
      → AllCanonical bc
      → AllCanonical (append_to b prev bc)
  unfolding append_to
  append_to-AllCanonical b prev bc all =
      write_map-IsCanonical (utxo_ref prev) (apply_txs b.transactions (utxo_of bc prev)) bc.maps
        (apply_txs-IsCanonical b.transactions (utxo_of bc prev) (all (utxo_ref prev))) all

  -- Adding a block keeps them so.
  pub add-AllCanonical :
      (b : Option Block) (bc bc' : Blockchain)
      → AllCanonical bc
      → add b bc ≡ ok bc'
      → AllCanonical bc'
  unfolding add
  add-AllCanonical none bc bc' all e = subst AllCanonical (ok-injective e) all
  add-AllCanonical (some b) bc bc' all e =
      let (prev, known, same) = add_cases b bc bc' e in
      subst AllCanonical same (append_to-AllCanonical b prev bc all)
