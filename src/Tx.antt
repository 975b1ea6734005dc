-- ===== src/Tx.antt =====
-- BrunoCoin/pkg/block/tx/tx.go
pub mod Txi
pub mod Txo
pub mod Heap
pub mod RoundTrip
pub mod Sums
pub mod NameTag
pub mod Tests
use csci1951l_cryptocurrency.Prelude.{ℕ, ◌+◌, ◌++◌, List, [], ◌∷◌, map, Bool, true, false}
use csci1951l_cryptocurrency.Prelude.Word.{add32}
use csci1951l_cryptocurrency.Prelude.Result.{Result}
use csci1951l_cryptocurrency.Text.{Bytes, codes, join}
use csci1951l_cryptocurrency.Text.Decimal.{format}
use csci1951l_cryptocurrency.Utils.Logging.{tag_of}
use csci1951l_cryptocurrency.Crypto
use csci1951l_cryptocurrency.Crypto.{Crypto}
use csci1951l_cryptocurrency.Proto
use Txi.{TransactionInput}
use Txo.{TransactionOutput}

-- The slices of a wrapped transaction are made by `deserialize` and so are never nil.
pub record Transaction : Type 0 where
  pub version : ℕ
  pub inputs : List TransactionInput
  pub outputs : List TransactionOutput
  pub lock_time : ℕ

unfoldable pub serialize : Transaction → Proto.Transaction
serialize t = record {
  version = t.version;
  inputs = map Txi.serialize t.inputs;
  outputs = map Txo.serialize t.outputs;
  lock_time = t.lock_time;
}

unfoldable pub deserialize : Proto.Transaction → Transaction
deserialize ptx = record {
  version = ptx.version;
  inputs = map Txi.deserialize ptx.inputs;
  outputs = map Txo.deserialize ptx.outputs;
  lock_time = ptx.lock_time;
}

unfoldable pub sz : Transaction → ℕ
sz t = Proto.sz_of_tx (serialize t)

sum_inputs_from : ℕ → List TransactionInput → ℕ
sum_inputs_from r [] = r
sum_inputs_from r (v ∷ vs) = sum_inputs_from (add32 r v.amount) vs

unfoldable pub sum_inputs : Transaction → ℕ
unfolding sum_inputs_from
sum_inputs t = sum_inputs_from 0 t.inputs

sum_outputs_from : ℕ → List TransactionOutput → ℕ
sum_outputs_from r [] = r
sum_outputs_from r (v ∷ vs) = sum_outputs_from (add32 r v.amount) vs

unfoldable pub sum_outputs : Transaction → ℕ
unfolding sum_outputs_from
sum_outputs t = sum_outputs_from 0 t.outputs

unfoldable pub is_coinbase : Transaction → Bool
is_coinbase t = elim t.inputs [ [] ↦ true | _ ↦ false ]

module _ ⦃crypto : Crypto⦄ where
  unfoldable pub hash : Transaction → Bytes
  hash t = Crypto.hash (
      format t.version
      ++ b'/'
        ∷ (format t.lock_time
            ++ b'/'
              ∷ (join (b'/' ∷ []) (map Txi.hash t.inputs)
                  ++ b'/' ∷ join (b'/' ∷ []) (map Txo.hash t.outputs))))

  unfoldable pub name_tag : Transaction → Result Bytes
  name_tag t = tag_of (codes "tx-") 6 (hash t)
