-- ===== src/Blockchain/Unspent.antt =====
-- The maps of unspent outputs: what a transaction does to one, and which nodes share it.
use native.Mathlib.Nat.{mod-eq_of_lt, zero-add, add-zero}
use csci1951l_cryptocurrency.Prelude.{
  ℕ, zero, suc, ◌+◌, ◌≤◌, ◌<◌, List, [], ◌∷◌, Bool, false, ◌||◌, none, some, ◌≡◌, ◌≢◌, refl, sym,
  ap, ◌∙◌, arith, length, get_elem?, if◌then◌else◌,
}
use csci1951l_cryptocurrency.Prelude.Word.{u32_mod, u32}
use csci1951l_cryptocurrency.Prelude.Result.{ok}
use csci1951l_cryptocurrency.Text.{Bytes}
use csci1951l_cryptocurrency.Text.Equality.{beq, beq_iff}
use csci1951l_cryptocurrency.Dict.{lookup, insert, erase}
use csci1951l_cryptocurrency.Dict.Laws.{lookup-insert, lookup-insert_self, lookup-erase}
use csci1951l_cryptocurrency.Crypto
use csci1951l_cryptocurrency.Crypto.{Crypto}
use csci1951l_cryptocurrency.Tx
use csci1951l_cryptocurrency.Tx.{Transaction}
use csci1951l_cryptocurrency.Tx.Txi.{TransactionInput}
use csci1951l_cryptocurrency.Tx.Txo.{TransactionOutput, mk_txo_loc}
use csci1951l_cryptocurrency.Tx.Txo.Locator.{IsDashless, mk_txo_loc_inj, encode-IsDashless}
use csci1951l_cryptocurrency.Block.{Block}
use csci1951l_cryptocurrency.Blockchain.{
  Blockchain, BlockchainNode, Utxo, utxo_of, spend_inputs, add_outputs, apply_tx, apply_txs,
  append_to, add,
}
use csci1951l_cryptocurrency.Blockchain.Invariant.{IsTree, IsChain-ref, add_cases}

-- Whether one of the inputs names the output under a key.
abbrev pub spends : Bytes → List TransactionInput → Bool
spends k [] = false
spends k (i ∷ ins) = beq (mk_txo_loc i.transaction_hash i.output_index) k || spends k ins

pub lookup-spend_inputs :
    (k : Bytes) (ins : List TransactionInput) (u : Utxo)
    → lookup k (spend_inputs ins u) ≡ (if spends k ins then none else lookup k u)
unfolding spend_inputs
lookup-spend_inputs k [] u = refl
lookup-spend_inputs k (i ∷ ins) u =
    let loc = mk_txo_loc i.transaction_hash i.output_index in
    ground (arith, lookup-spend_inputs k ins (erase loc u), lookup-erase loc k u)

-- An output that no key of the new ones names is left alone.
pub lookup-add_outputs_other :
    (k h : Bytes) (i : ℕ) (outs : List TransactionOutput) (u : Utxo)
    → ((j : ℕ) → mk_txo_loc h j ≢ k)
    → lookup k (add_outputs h i outs u) ≡ lookup k u
unfolding add_outputs
lookup-add_outputs_other k h i [] u other = refl
lookup-add_outputs_other k h i (o ∷ outs) u other =
    let loc = mk_txo_loc h (u32 i) in
    lookup-add_outputs_other k h (i + 1) outs (insert loc o u) other
    ∙ lookup-insert loc k o u
    ∙ ground (arith, beq_iff loc k, other (u32 i))

-- The key of the output at index `i` is not that of an earlier one.
loc_ne :
    (h : Bytes) (i j : ℕ)
    → IsDashless h
    → j < i
    → i < u32_mod
    → beq (mk_txo_loc h (u32 i)) (mk_txo_loc h j) ≡ false
loc_ne h i j d lt fits =
    let small : u32 i ≡ i = mod-eq_of_lt fits in
    rw small (
      ground (
        arith,
        beq_iff (mk_txo_loc h i) (mk_txo_loc h j),
        mk_txo_loc_inj h h i j d d fits (omega arith),
      ))

lookup-add_outputs_below :
    (h : Bytes) (j i : ℕ) (outs : List TransactionOutput) (u : Utxo)
    → IsDashless h
    → j < i
    → i + length outs ≤ u32_mod
    → lookup (mk_txo_loc h j) (add_outputs h i outs u) ≡ lookup (mk_txo_loc h j) u
unfolding add_outputs
lookup-add_outputs_below h j i [] u d lt fits = refl
lookup-add_outputs_below h j i (o ∷ outs) u d lt fits =
    let loc = mk_txo_loc h (u32 i) in
    lookup-add_outputs_below h j (i + 1) outs (insert loc o u) d (omega arith) (omega arith)
    ∙ lookup-insert loc (mk_txo_loc h j) o u
    ∙ rw (loc_ne h i j d lt (omega arith))

pub lookup-add_outputs :
    (h : Bytes) (j i : ℕ) (outs : List TransactionOutput) (u : Utxo)
    → IsDashless h
    → j < length outs
    → i + length outs ≤ u32_mod
    → lookup (mk_txo_loc h (i + j)) (add_outputs h i outs u) ≡ get_elem? outs j
unfolding add_outputs
lookup-add_outputs h j i [] u d lt fits = absurd (omega arith)
lookup-add_outputs h zero i (o ∷ outs) u d lt fits =
    let small : u32 i ≡ i = mod-eq_of_lt (omega arith) in
    rw (add-zero, small)
      (lookup-add_outputs_below h i (i + 1) outs (insert (mk_txo_loc h i) o u) d (omega arith)
          (omega arith)
        ∙ lookup-insert_self (mk_txo_loc h i) o u)
lookup-add_outputs h (suc j) i (o ∷ outs) u d lt fits =
    let e : i + suc j ≡ i + 1 + j = omega arith in
    rw e (
      lookup-add_outputs h j (i + 1) outs (insert (mk_txo_loc h (u32 i)) o u) d (omega arith)
        (omega arith))

module _ ⦃crypto : Crypto⦄ where
  pub hash-IsDashless : (t : Transaction) → IsDashless (Tx.hash t)
  unfolding Tx.hash Crypto.hash
  hash-IsDashless t = encode-IsDashless _

  -- After a transaction each of its outputs is in the map under its locator, at most 2 ^ 32 of them;
  -- of the other keys exactly those that an input names are gone, and the rest are as before.
  pub apply_tx_lem :
      (t : Transaction) (u : Utxo)
      → length t.outputs ≤ u32_mod
      → ((j : ℕ)
          → j < length t.outputs
          → lookup (mk_txo_loc (Tx.hash t) j) (apply_tx t u) ≡ get_elem? t.outputs j)
        × ((k : Bytes)
            → ((j : ℕ) → mk_txo_loc (Tx.hash t) j ≢ k)
            → lookup k (apply_tx t u) ≡ (if spends k t.inputs then none else lookup k u))
  unfolding apply_tx
  apply_tx_lem t u fits =
      let d = hash-IsDashless t in
      let spent = spend_inputs t.inputs u in
      (
        λ j lt.
            rw (zero-add) at
              (lookup-add_outputs (Tx.hash t) j 0 t.outputs spent d lt (omega arith)),
        λ k other.
            lookup-add_outputs_other k (Tx.hash t) 0 t.outputs spent other
            ∙ lookup-spend_inputs k t.inputs u,
      )

  -- Whatever node a block is added to, the transactions of the block are applied to the map of
  -- every node in the tree, on other branches too: all nodes share one map.
  pub add_changes_every_map :
      (b : Block) (bc bc' : Blockchain) (k : Bytes) (n : BlockchainNode)
      → IsTree bc
      → add (some b) bc ≡ ok bc'
      → lookup k bc.blocks ≡ some n
      → utxo_of bc' n ≡ apply_txs b.transactions (utxo_of bc n)
  unfolding append_to
  add_changes_every_map b bc bc' k n v added known =
      let (prev, found, is_new) = add_cases b bc bc' added in
      let here = IsChain-ref prev (v.entry b.hdr.prv_blk_hsh prev found).chain in
      let there = IsChain-ref n (v.entry k n known).chain in
      ap (λ c. utxo_of c n) (sym is_new) ∙ ground arith
