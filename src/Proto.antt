-- ===== src/Proto.antt =====
-- BrunoCoin/pkg/proto: the messages, and constructors.go. A slice of pointers is a list of the
-- messages, which the decoder never leaves nil; a message inside another may be missing. Sizes are those of a 64-bit build.
pub mod Sizes
use csci1951l_cryptocurrency.Prelude.{ℕ, List, [], ◌∷◌, Option, none, some}
use csci1951l_cryptocurrency.Prelude.Result.{Result, ok, panic, ◌>>=◌}
use csci1951l_cryptocurrency.Prelude.Word.{add32}
use csci1951l_cryptocurrency.Text.{Bytes}

pub record TransactionInput : Type 0 where
  pub transaction_hash : Bytes
  pub output_index : ℕ
  pub unlocking_script : Bytes
  pub amount : ℕ

pub record TransactionOutput : Type 0 where
  pub amount : ℕ
  pub locking_script : Bytes

pub record Transaction : Type 0 where
  pub version : ℕ
  pub inputs : List TransactionInput
  pub outputs : List TransactionOutput
  pub lock_time : ℕ

pub record BlockHeader : Type 0 where
  pub version : ℕ
  pub prev_block_hash : Bytes
  pub merkle_root : Bytes
  pub timestamp : ℕ
  pub difficulty_target : Bytes
  pub nonce : ℕ

pub record Block : Type 0 where
  pub header : Option BlockHeader
  pub transactions : List Transaction

pub record VersionRequest : Type 0 where
  pub version : ℕ
  pub addr_you : Bytes
  pub addr_me : Bytes
  pub best_height : ℕ

-- The reply that carries nothing.
pub data Empty : Type 0 where
  empty : Empty

-- `unsafe.Sizeof` of a uint32 and of a string header.
abbrev size_of_uint32 : ℕ
size_of_uint32 = 4

abbrev size_of_string : ℕ
size_of_string = 16

-- The first loop of `SzOfTx`.
sz_of_inputs : ℕ → List TransactionInput → ℕ
sz_of_inputs sz [] = sz
sz_of_inputs sz (t ∷ ts) =
    sz_of_inputs
      (add32 (add32 (add32 (add32 sz size_of_uint32) size_of_string) size_of_string) size_of_uint32)
      ts

-- The second loop of `SzOfTx`.
sz_of_outputs : ℕ → List TransactionOutput → ℕ
sz_of_outputs sz [] = sz
sz_of_outputs sz (t ∷ ts) = sz_of_outputs (add32 (add32 sz size_of_uint32) size_of_string) ts

unfoldable pub sz_of_tx : Transaction → ℕ
unfolding sz_of_inputs sz_of_outputs
sz_of_tx t =
    add32 (add32 (sz_of_outputs (sz_of_inputs 0 t.inputs) t.outputs) size_of_uint32) size_of_uint32

unfoldable pub new_tx : ℕ → List TransactionInput → List TransactionOutput → ℕ → Transaction
new_tx ver inpts outpts lck_time = record {
  version = ver;
  inputs = inpts;
  outputs = outpts;
  lock_time = lck_time;
}

-- The header's fields have fixed sizes; they are read through its pointer.
unfoldable pub sz_of_hdr : Option BlockHeader → Result ℕ
sz_of_hdr none = panic
sz_of_hdr (some h) = ok (
    add32
      (add32 (add32 (add32 (add32 0 size_of_string) size_of_uint32) size_of_string) size_of_uint32)
      size_of_uint32)

sz_of_txs : ℕ → List Transaction → ℕ
sz_of_txs sz [] = sz
sz_of_txs sz (t ∷ ts) = sz_of_txs (add32 sz (sz_of_tx t)) ts

unfoldable pub sz_of_blk : Block → Result ℕ
unfolding sz_of_txs
sz_of_blk b = do hdr ← sz_of_hdr b.header; ok (add32 (sz_of_txs 0 b.transactions) hdr)

unfoldable pub new_tx_inpt : Bytes → ℕ → Bytes → ℕ → TransactionInput
new_tx_inpt h i unlck_scr amt = record {
  transaction_hash = h;
  output_index = i;
  unlocking_script = unlck_scr;
  amount = amt;
}

unfoldable pub new_tx_outpt : ℕ → Bytes → TransactionOutput
new_tx_outpt amt to_pk = record { amount = amt; locking_script = to_pk }
