-- ===== src/Tx/Txi.antt =====
-- BrunoCoin/pkg/block/tx/txi/txi.go
use csci1951l_cryptocurrency.Prelude.{ℕ, ◌++◌, ◌∷◌}
use csci1951l_cryptocurrency.Text.{Bytes}
use csci1951l_cryptocurrency.Text.Decimal.{format}
use csci1951l_cryptocurrency.Crypto
use csci1951l_cryptocurrency.Crypto.{Crypto}
use csci1951l_cryptocurrency.Proto

pub record TransactionInput : Type 0 where
  pub transaction_hash : Bytes
  pub output_index : ℕ
  pub unlocking_script : Bytes
  pub amount : ℕ

unfoldable pub serialize : TransactionInput → Proto.TransactionInput
serialize txi = record {
  transaction_hash = txi.transaction_hash;
  output_index = txi.output_index;
  unlocking_script = txi.unlocking_script;
  amount = txi.amount;
}

unfoldable pub deserialize : Proto.TransactionInput → TransactionInput
deserialize inp = record {
  transaction_hash = inp.transaction_hash;
  output_index = inp.output_index;
  unlocking_script = inp.unlocking_script;
  amount = inp.amount;
}

module _ ⦃crypto : Crypto⦄ where
  unfoldable pub hash : TransactionInput → Bytes
  hash txi = Crypto.hash (
      txi.transaction_hash
      ++ b'/'
        ∷ (format txi.output_index ++ b'/' ∷ (txi.unlocking_script ++ b'/' ∷ format txi.amount)))
