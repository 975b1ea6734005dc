-- ===== src/Tx/Txo/Signature.antt =====
-- What an identity signs, the output locked to it accepts.
use csci1951l_cryptocurrency.Prelude.{◌≡◌, ap, ◌∙◌, some, true, arith}
use csci1951l_cryptocurrency.Prelude.Result.{ok}
use csci1951l_cryptocurrency.Text.{Bytes}
use csci1951l_cryptocurrency.Text.Hex.{encode_to_string, decoded}
use csci1951l_cryptocurrency.Text.Hex.RoundTrip.{decoded-encode}
use csci1951l_cryptocurrency.Crypto
use csci1951l_cryptocurrency.Crypto.{Crypto, IsSum256, IsKeyPair, byt2pk, sign, ecdsa_key}
use csci1951l_cryptocurrency.Crypto.Id.{SimpleId}
use csci1951l_cryptocurrency.Tx.Txo
use csci1951l_cryptocurrency.Tx.Txo.{TransactionOutput, is_unlckd, verify_with, sign_hash, mk_sig}

module _ ⦃crypto : Crypto⦄ where
  -- The hash of an output decodes to the sum that it encodes.
  pub decoded-hash :
      (o : TransactionOutput) → IsSum256 → (d : Bytes) × (decoded (Txo.hash o) ≡ some d)
  unfolding Txo.hash Crypto.hash
  decoded-hash o law = (_, decoded-encode _ (law.sum256-All _))

  mk_sig-ok :
      (r : Bytes) (o : TransactionOutput) (id : SimpleId) (sk : crypto.PrivateKey) (d s : Bytes)
      → id.private_key ≡ some sk
      → decoded (Txo.hash o) ≡ some d
      → crypto.sign_asn1 r sk d ≡ some s
      → mk_sig r o id ≡ ok (encode_to_string s)
  unfolding mk_sig sign
  mk_sig-ok r o id sk d s has_key hashed signed = ground arith

  is_unlckd-ok :
      (o : TransactionOutput) (pkb sig d s : Bytes) (pk : crypto.PublicKey)
      → decoded o.locking_script ≡ some pkb
      → crypto.parse_pkix_public_key pkb ≡ ecdsa_key pk
      → decoded (Txo.hash o) ≡ some d
      → decoded sig ≡ some s
      → is_unlckd o sig ≡ ok (crypto.verify_asn1 pk d s)
  unfolding is_unlckd byt2pk
  is_unlckd-ok o pkb sig d s pk locked parsed hashed signed = ground arith

  -- Where a hash has 32 bytes, an identity with a key pair whose signatures verify makes a signature
  -- for an output that is locked to its public key, and the signature unlocks the output.
  pub is_unlckd-mk_sig :
      (r : Bytes) (o : TransactionOutput) (id : SimpleId) (sk : crypto.PrivateKey)
      (pk : crypto.PublicKey)
      → IsSum256
      → IsKeyPair sk pk id.public_key_bytes
      → id.private_key ≡ some sk
      → o.locking_script ≡ encode_to_string id.public_key_bytes
      → (sig : Bytes) × (mk_sig r o id ≡ ok sig) × (is_unlckd o sig ≡ ok true)
  is_unlckd-mk_sig r o id sk pk law pair has_key locked =
      let (d, hashed) = decoded-hash o law in
      let (s, signed, bytes) = pair.signs r d in
      (
        encode_to_string s,
        mk_sig-ok r o id sk d s has_key hashed signed,
        is_unlckd-ok o id.public_key_bytes (encode_to_string s) d s pk
              (ap decoded locked ∙ decoded-encode id.public_key_bytes pair.pkb-All) pair.parses
              hashed (decoded-encode s bytes)
            ∙ ap ok (pair.verifies r d s signed),
      )
