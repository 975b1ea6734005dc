-- ===== src/Blockchain/Inputs.antt =====
-- What `ChkChainsUTXO` asks of the transactions of a block.
use csci1951l_cryptocurrency.Prelude.{
  List, [], ◌∷◌, Bool, true, false, ◌&&◌, none, some, ◌≡◌, ◌↔◌, refl, arith, All,
}
use csci1951l_cryptocurrency.Text.{Bytes}
use csci1951l_cryptocurrency.Dict.{lookup, contains}
use csci1951l_cryptocurrency.Tx.{Transaction}
use csci1951l_cryptocurrency.Tx.Txi.{TransactionInput}
use csci1951l_cryptocurrency.Tx.Txo.{mk_txo_loc}
use csci1951l_cryptocurrency.Blockchain.{
  Blockchain, Utxo, last_utxo, utxo_of, has_inputs, have_inputs, chk_chains_utxo,
}

-- The input names an output of the map.
abbrev pub IsIn : Utxo → TransactionInput → Type 0
IsIn u i = contains (mk_txo_loc i.transaction_hash i.output_index) u ≡ true

abbrev pub AreIn : Utxo → List Transaction → Type 0
AreIn u = All (λ t. All (IsIn u) t.inputs)

-- The map after the block of the given hash; where it is not known, the map after the last block.
abbrev pub utxo_after : Bytes → Blockchain → Utxo
utxo_after h bc = elim (lookup h bc.blocks) [ none ↦ last_utxo bc | some n ↦ utxo_of bc n ]

both : (a b : Bool) → (a && b) ≡ true → (a ≡ true) × (b ≡ true)
both true b e = (refl, e)
both false b e = absurd (ground (arith, e))

has_inputs_iff :
    (u : Utxo) (ins : List TransactionInput) → (has_inputs ins u ≡ true) ↔ All (IsIn u) ins
unfolding has_inputs
has_inputs_iff u [] = (λ e. tt, λ h. refl)
has_inputs_iff u (i ∷ ins) = (
  λ e. let (first, rest) = both _ _ e in (first, (has_inputs_iff u ins).0 rest),
  λ h. rw (h.0, (has_inputs_iff u ins).1 h.1) refl,
)

have_inputs_iff : (u : Utxo) (txs : List Transaction) → (have_inputs txs u ≡ true) ↔ AreIn u txs
unfolding have_inputs
have_inputs_iff u [] = (λ e. tt, λ h. refl)
have_inputs_iff u (t ∷ txs) = (
  λ e.
      let (first, rest) = both _ _ e in
      ((has_inputs_iff u t.inputs).0 first, (have_inputs_iff u txs).0 rest),
  λ h. rw ((has_inputs_iff u t.inputs).1 h.0, (have_inputs_iff u txs).1 h.1) refl,
)

pub chk_chains_utxo_iff :
    (txs : List Transaction) (h : Bytes) (bc : Blockchain)
    → (chk_chains_utxo txs h bc ≡ true) ↔ AreIn (utxo_after h bc) txs
unfolding chk_chains_utxo
chk_chains_utxo_iff txs h bc = have_inputs_iff (utxo_after h bc) txs
