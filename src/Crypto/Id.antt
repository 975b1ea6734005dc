-- ===== src/Crypto/Id.antt =====
-- BrunoCoin/pkg/id: the identity of a node, a key pair with its serialized forms. The key pair of
-- a new identity is drawn by `ecdsa.GenerateKey` and comes in as an argument.
pub mod Reload
use csci1951l_cryptocurrency.Prelude.{Option, none, some}
use csci1951l_cryptocurrency.Prelude.Result.{Result, ok, panic, ◌>>=◌}
use csci1951l_cryptocurrency.Text.{Bytes}
use csci1951l_cryptocurrency.Text.Hex.{decode_string}
use csci1951l_cryptocurrency.Crypto.{Crypto, malformed, ecdsa_key, other_key, byt2pk, byt2sk}

-- The configuration of an identity is empty.
pub data Config : Type 0 where
  default_config : Config

module _ ⦃crypto : Crypto⦄ where
  -- A pointer to a key is nil where the key did not parse.
  pub record SimpleId : Type 0 where
    pub private_key : Option crypto.PrivateKey
    pub private_key_bytes : Bytes
    pub public_key : Option crypto.PublicKey
    pub public_key_bytes : Bytes

  -- The bytes decoded before an error are used, and the error is dropped.
  pub load_in_smpl_id : Bytes → Bytes → Result SimpleId
  load_in_smpl_id pub_k priv_k = do
    let pkb = (decode_string pub_k).0
    let skb = (decode_string priv_k).0
    pk ← byt2pk pkb
    ok (record {
      private_key = byt2sk skb;
      private_key_bytes = pkb;
      public_key = pk;
      public_key_bytes = pkb;
    })

  -- The getters.
  unfoldable pub get_private_key : SimpleId → Option crypto.PrivateKey
  get_private_key id = id.private_key

  unfoldable pub get_private_key_bytes : SimpleId → Bytes
  get_private_key_bytes id = id.private_key_bytes

  unfoldable pub get_public_key : SimpleId → Option crypto.PublicKey
  get_public_key id = id.public_key

  unfoldable pub get_public_key_bytes : SimpleId → Bytes
  get_public_key_bytes id = id.public_key_bytes

  -- The methods that convert keys do not read the identity. `none` is an error; a public key of
  -- another algorithm fails the type assertion.
  unfoldable pub bytes_to_public_key : Bytes → Result (Option crypto.PublicKey)
  bytes_to_public_key bytes = elim (crypto.parse_pkix_public_key bytes) [
    | malformed ↦ ok none
    | ecdsa_key k ↦ ok (some k)
    | other_key ↦ panic
  ]

  unfoldable pub public_key_to_bytes : crypto.PublicKey → Option Bytes
  public_key_to_bytes key = crypto.marshal_pkix_public_key key

  unfoldable pub bytes_to_private_key : Bytes → Option crypto.PrivateKey
  bytes_to_private_key bytes = crypto.parse_ec_private_key bytes

  unfoldable pub private_key_to_bytes : crypto.PrivateKey → Option Bytes
  private_key_to_bytes key = crypto.marshal_ec_private_key key

  -- `none` is an error of the key generator or of the serialization.
  unfoldable pub create_simple_id : Option crypto.PrivateKey → Option SimpleId
  unfolding private_key_to_bytes public_key_to_bytes
  create_simple_id none = none
  create_simple_id (some sk) = elim (private_key_to_bytes sk) [
    | none ↦ none
    | some skb ↦ elim (public_key_to_bytes (crypto.public_of sk)) [
      | none ↦ none
      | some pkb ↦ some (record {
        private_key = some sk;
        private_key_bytes = skb;
        public_key = some (crypto.public_of sk);
        public_key_bytes = pkb;
      })
    ]
  ]

  -- `id.New`
  unfoldable pub new : Config → Option crypto.PrivateKey → Option SimpleId
  new conf generated = create_simple_id generated
