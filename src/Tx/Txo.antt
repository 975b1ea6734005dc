-- ===== src/Tx/Txo.antt =====
-- BrunoCoin/pkg/block/tx/txo/txo.go
pub mod Locator
pub mod Signature
use csci1951l_cryptocurrency.Prelude.{
  ℕ, ◌++◌, [], ◌∷◌, Option, none, some, Bool, false, List, ◌≡◌, refl,
}
use csci1951l_cryptocurrency.Prelude.Result.{Result, ok, panic, ◌>>=◌, deref}
use csci1951l_cryptocurrency.Text.{Bytes}
use csci1951l_cryptocurrency.Text.Decimal.{format, parse_uint}
use csci1951l_cryptocurrency.Text.Hex.{decoded}
use csci1951l_cryptocurrency.Text.Split.{split}
use csci1951l_cryptocurrency.Crypto
use csci1951l_cryptocurrency.Crypto.{Crypto, byt2pk, sign}
use csci1951l_cryptocurrency.Crypto.Id.{SimpleId}
use csci1951l_cryptocurrency.Proto

pub record TransactionOutput : Type 0 where
  pub amount : ℕ
  pub locking_script : Bytes
  pub liminal : Bool

-- The second and the first part of a locator; a missing part is an index out of range.
prs_parts : List Bytes → Result (Bytes × ℕ)
prs_parts (h ∷ i ∷ rest) = elim (parse_uint i) [ none ↦ ok ([], 0) | some n ↦ ok (h, n) ]
prs_parts _ = panic

pub prs_txo_loc : Bytes → Result (Bytes × ℕ)
unfolding prs_parts
prs_txo_loc l = prs_parts (split b'-' l)

unfoldable pub mk_txo_loc : Bytes → ℕ → Bytes
mk_txo_loc h i = h ++ b'-' ∷ format i

unfoldable pub serialize : TransactionOutput → Proto.TransactionOutput
serialize o = record { amount = o.amount; locking_script = o.locking_script }

unfoldable pub deserialize : Proto.TransactionOutput → TransactionOutput
deserialize ptx = record {
  amount = ptx.amount;
  locking_script = ptx.locking_script;
  liminal = false;
}

module _ ⦃crypto : Crypto⦄ where
  unfoldable pub hash : TransactionOutput → Bytes
  hash o = Crypto.hash (format o.amount ++ b'/' ∷ o.locking_script)

  -- The mark is no part of the hash.
  pub hash-unliminal : (o : TransactionOutput) → hash (record o { liminal = false }) ≡ hash o
  unfolding hash
  hash-unliminal o = refl

  -- The checks after the public key was parsed.
  verify_with : TransactionOutput → Bytes → Option crypto.PublicKey → Bool
  verify_with o sig none = false
  verify_with o sig (some pk) = elim (decoded (hash o)) [
    | none ↦ false
    | some h ↦ elim (decoded sig) [ none ↦ false | some sig_b ↦ crypto.verify_asn1 pk h sig_b ]
  ]

  unfoldable pub is_unlckd : TransactionOutput → Bytes → Result Bool
  unfolding verify_with
  is_unlckd o sig = elim (decoded o.locking_script) [
    | none ↦ ok false
    | some pkb ↦ do pk ← byt2pk pkb; ok (verify_with o sig pk)
  ]

  -- Every error is printed and dropped: the signature is then empty. Signing with a nil key panics.
  sign_hash : Bytes → Option crypto.PrivateKey → Option Bytes → Result Bytes
  sign_hash r sk none = ok []
  sign_hash r none (some h) = panic
  sign_hash r (some sk) (some h) = elim (sign r sk h) [ none ↦ ok [] | some sig ↦ ok sig ]

  unfoldable pub mk_sig : Bytes → TransactionOutput → SimpleId → Result Bytes
  unfolding sign_hash
  mk_sig r o id = sign_hash r id.private_key (decoded (hash o))
