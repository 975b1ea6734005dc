-- ===== src/Crypto/Id/Reload.antt =====
-- An identity that is created and loaded from its keys again.
use mathlib.Core.Option.{some-injective}
use csci1951l_cryptocurrency.Prelude.{some, ◌≡◌, subst, All, Option-cases, inl, inr, arith}
use csci1951l_cryptocurrency.Prelude.Result.{ok}
use csci1951l_cryptocurrency.Text.{Bytes}
use csci1951l_cryptocurrency.Text.Hex.{encode_to_string}
use csci1951l_cryptocurrency.Text.Hex.RoundTrip.{IsByte, decode_string-encode}
use csci1951l_cryptocurrency.Crypto.{Crypto, ecdsa_key, byt2pk, byt2sk}
use csci1951l_cryptocurrency.Crypto.Id.{SimpleId, load_in_smpl_id, create_simple_id}

module _ ⦃crypto : Crypto⦄ where
  -- The formats of x509 at a private key, as documented: both serialized keys are bytes, and are
  -- parsed back.
  pub record IsFormatted (sk : crypto.PrivateKey) : Type 0 where
    pub private_bytes : (b : Bytes) → crypto.marshal_ec_private_key sk ≡ some b → All IsByte b
    pub private_back :
        (b : Bytes)
        → crypto.marshal_ec_private_key sk ≡ some b
        → crypto.parse_ec_private_key b ≡ some sk
    pub public_bytes :
        (b : Bytes) → crypto.marshal_pkix_public_key (crypto.public_of sk) ≡ some b → All IsByte b
    pub public_back :
        (b : Bytes)
        → crypto.marshal_pkix_public_key (crypto.public_of sk) ≡ some b
        → crypto.parse_pkix_public_key b ≡ ecdsa_key (crypto.public_of sk)

  -- A created identity has the key pair and both serialized keys.
  created :
      (sk : crypto.PrivateKey) (id : SimpleId)
      → create_simple_id (some sk) ≡ some id
      → (skb : Bytes) × (pkb : Bytes) × (crypto.marshal_ec_private_key sk ≡ some skb)
        × (crypto.marshal_pkix_public_key (crypto.public_of sk) ≡ some pkb)
        × (record {
          private_key = some sk;
          private_key_bytes = skb;
          public_key = some (crypto.public_of sk);
          public_key_bytes = pkb;
        }
            ≡ id)
  unfolding create_simple_id
  created sk id e = elim (Option-cases (crypto.marshal_ec_private_key sk)) [
    | inl failed ↦ absurd (ground (arith, rw (create_simple_id, failed) at e))
    | inr (skb, has_skb) ↦
        elim (Option-cases (crypto.marshal_pkix_public_key (crypto.public_of sk))) [
          | inl failed ↦ absurd (ground (arith, rw (create_simple_id, has_skb, failed) at e))
          | inr (pkb, has_pkb) ↦ (
            skb,
            pkb,
            has_skb,
            has_pkb,
            some-injective _ _ (rw (create_simple_id, has_skb, has_pkb) at e),
          )
        ]
  ]

  -- Loading an identity from the hex texts of the serialized keys of a created one gives the same
  -- keys, and the bytes of the public key in place of those of the private key.
  pub load-create :
      (sk : crypto.PrivateKey) (id : SimpleId)
      → IsFormatted sk
      → create_simple_id (some sk) ≡ some id
      → load_in_smpl_id
          (encode_to_string id.public_key_bytes)
          (encode_to_string id.private_key_bytes)
        ≡ ok (record id { private_key_bytes = id.public_key_bytes })
  unfolding load_in_smpl_id byt2pk byt2sk
  load-create sk id law e =
      let (skb, pkb, has_skb, has_pkb, same) = created sk id e in
      subst
        (λ (i : SimpleId).
          load_in_smpl_id (encode_to_string i.public_key_bytes)
            (encode_to_string i.private_key_bytes)
          ≡ ok (record i { private_key_bytes = i.public_key_bytes }))
        same
        (rw (
          decode_string-encode pkb (law.public_bytes pkb has_pkb),
          decode_string-encode skb (law.private_bytes skb has_skb),
          byt2pk,
          law.public_back pkb has_pkb,
          law.private_back skb has_skb,
        ))
