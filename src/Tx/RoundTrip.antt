-- ===== src/Tx/RoundTrip.antt =====
-- A transaction survives its wire form, up to the marks on its outputs, which stay in the node.
use csci1951l_cryptocurrency.Prelude.{List, [], ◌∷◌, map, false, ◌≡◌, refl, ap, ap₂}
use csci1951l_cryptocurrency.Crypto.{Crypto}
use csci1951l_cryptocurrency.Proto
use csci1951l_cryptocurrency.Tx
use csci1951l_cryptocurrency.Tx.{Transaction, serialize, deserialize}
use csci1951l_cryptocurrency.Tx.Txi
use csci1951l_cryptocurrency.Tx.Txi.{TransactionInput}
use csci1951l_cryptocurrency.Tx.Txo
use csci1951l_cryptocurrency.Tx.Txo.{TransactionOutput, hash-unliminal}

inputs_back : (l : List TransactionInput) → map Txi.deserialize (map Txi.serialize l) ≡ l
unfolding Txi.serialize Txi.deserialize
inputs_back [] = refl
inputs_back (i ∷ l) = ap (◌∷◌ i) (inputs_back l)

-- The marks of the outputs are gone.
abbrev pub unmark : TransactionOutput → TransactionOutput
unmark o = record o { liminal = false }

outputs_back :
    (l : List TransactionOutput) → map Txo.deserialize (map Txo.serialize l) ≡ map unmark l
unfolding Txo.serialize Txo.deserialize
outputs_back [] = refl
outputs_back (o ∷ l) = ap (◌∷◌ (unmark o)) (outputs_back l)

-- Serializing a transaction and deserializing the message gives the transaction with its outputs
-- unmarked, and all else as it was.
pub deserialize-serialize :
    (t : Transaction) → deserialize (serialize t) ≡ record t { outputs = map unmark t.outputs }
unfolding serialize deserialize
deserialize-serialize t = rw (inputs_back t.inputs, outputs_back t.outputs)

inputs_wire : (l : List Proto.TransactionInput) → map Txi.serialize (map Txi.deserialize l) ≡ l
unfolding Txi.serialize Txi.deserialize
inputs_wire [] = refl
inputs_wire (i ∷ l) = ap (◌∷◌ i) (inputs_wire l)

outputs_wire : (l : List Proto.TransactionOutput) → map Txo.serialize (map Txo.deserialize l) ≡ l
unfolding Txo.serialize Txo.deserialize
outputs_wire [] = refl
outputs_wire (o ∷ l) = ap (◌∷◌ o) (outputs_wire l)

-- The other way round nothing changes: a node forwards the message that it received.
pub serialize-deserialize : (p : Proto.Transaction) → serialize (deserialize p) ≡ p
unfolding serialize deserialize
serialize-deserialize p = rw (inputs_wire p.inputs, outputs_wire p.outputs)

module _ ⦃crypto : Crypto⦄ where
  hashes-unmark : (l : List TransactionOutput) → map Txo.hash (map unmark l) ≡ map Txo.hash l
  hashes-unmark [] = refl
  hashes-unmark (o ∷ l) = ap₂ ◌∷◌ (hash-unliminal o) (hashes-unmark l)

  -- A transaction and what its wire form is read back as have one hash.
  pub hash-deserialize-serialize :
      (t : Transaction) → Tx.hash (deserialize (serialize t)) ≡ Tx.hash t
  unfolding Tx.hash
  hash-deserialize-serialize t = rw (deserialize-serialize t, hashes-unmark t.outputs)
