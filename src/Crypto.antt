-- ===== src/Crypto.antt =====
-- BrunoCoin/pkg/utils/crypto.go, over the cryptography of Go's crypto packages, which is a
-- parameter: SHA-256, and ECDSA with its key formats.
pub mod Id
pub mod Toy
pub mod Tests
use csci1951l_cryptocurrency.Prelude.{Option, none, some, Bool, ◌≡◌, length, All, true}
use csci1951l_cryptocurrency.Prelude.Result.{Result, ok, panic}
use csci1951l_cryptocurrency.Text.{Bytes}
use csci1951l_cryptocurrency.Text.Hex.{encode_to_string}
use csci1951l_cryptocurrency.Text.Hex.RoundTrip.{IsByte}

-- What `x509.ParsePKIXPublicKey` returns: an error, an ECDSA key, or a key of another algorithm.
pub data ParsedKey (K : Type 0) : Type 0 where
  malformed : ParsedKey K
  ecdsa_key : K → ParsedKey K
  other_key : ParsedKey K

pub record Crypto : Type 1 where
  pub PublicKey : Type 0
  pub PrivateKey : Type 0
  -- `sha256.Sum256`
  pub sum256 : Bytes → Bytes
  -- `ecdsa.VerifyASN1` and `ecdsa.SignASN1`; the first argument of signing is what it draws from
  -- the random reader
  pub verify_asn1 : PublicKey → Bytes → Bytes → Bool
  pub sign_asn1 : Bytes → PrivateKey → Bytes → Option Bytes
  -- `x509`
  pub parse_pkix_public_key : Bytes → ParsedKey PublicKey
  pub parse_ec_private_key : Bytes → Option PrivateKey
  pub marshal_pkix_public_key : PublicKey → Option Bytes
  pub marshal_ec_private_key : PrivateKey → Option Bytes
  -- the field of `ecdsa.PrivateKey`
  pub public_of : PrivateKey → PublicKey

module _ ⦃crypto : Crypto⦄ where
  -- The documented shape of a SHA-256 sum: 32 bytes.
  pub record IsSum256 : Type 0 where
    pub sum256-All : (v : Bytes) → All IsByte (crypto.sum256 v)
    pub length-sum256 : (v : Bytes) → length (crypto.sum256 v) ≡ 32

  -- A key pair as the documentation has it: its public key parses back from its PKIX bytes, what
  -- it signs is verified, and a signature is bytes.
  pub record IsKeyPair (sk : crypto.PrivateKey) (pk : crypto.PublicKey) (pkb : Bytes) : Type 0 where
    pub pkb-All : All IsByte pkb
    pub parses : crypto.parse_pkix_public_key pkb ≡ ecdsa_key pk
    pub verifies :
        (r h s : Bytes) → crypto.sign_asn1 r sk h ≡ some s → crypto.verify_asn1 pk h s ≡ true
    pub signs : (r h : Bytes) → (s : Bytes) × (crypto.sign_asn1 r sk h ≡ some s) × All IsByte s

  -- `utils.Hash`
  unfoldable pub hash : Bytes → Bytes
  hash v = encode_to_string (crypto.sum256 v)

  -- `utils.Sign`: the signature as a hex string, or an error
  unfoldable pub sign : Bytes → crypto.PrivateKey → Bytes → Option Bytes
  sign r sk h = elim (crypto.sign_asn1 r sk h) [ none ↦ none | some s ↦ some (encode_to_string s) ]

  -- `utils.Byt2PK`: the type assertion panics at a key of another algorithm
  unfoldable pub byt2pk : Bytes → Result (Option crypto.PublicKey)
  byt2pk pkb = elim (crypto.parse_pkix_public_key pkb) [
    | malformed ↦ ok none
    | ecdsa_key k ↦ ok (some k)
    | other_key ↦ panic
  ]

  -- `utils.Byt2SK`
  unfoldable pub byt2sk : Bytes → Option crypto.PrivateKey
  byt2sk skb = crypto.parse_ec_private_key skb
