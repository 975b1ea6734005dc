-- ===== src/Crypto/Toy.antt =====
-- A small instance of the parameter for the tests: a sum of bytes in place of SHA-256, and signatures
-- that repeat the first byte of what is signed.
use csci1951l_cryptocurrency.Prelude.{
  ℕ, zero, suc, ◌+◌, ◌*◌, ◌<◌, ◌%◌, [], ◌∷◌, true, Option, some, ◌≡◌, refl, All, length, arith,
  subst,
}
use mathlib.Core.Option.{some-injective}
use csci1951l_cryptocurrency.Text.{Bytes}
use csci1951l_cryptocurrency.Text.Equality.{beq, beq_refl}
use csci1951l_cryptocurrency.Text.Hex.RoundTrip.{IsByte}
use csci1951l_cryptocurrency.Crypto.{Crypto, ecdsa_key, IsSum256, IsKeyPair}
use csci1951l_cryptocurrency.Crypto.Id.{SimpleId}

abbrev sum_bytes : Bytes → ℕ
sum_bytes [] = 1
sum_bytes (b ∷ v) = (3 * sum_bytes v + b) % 251

abbrev copies : ℕ → ℕ → Bytes
copies zero b = []
copies (suc k) b = b ∷ copies k b

abbrev first : Bytes → Bytes
first [] = 0 ∷ []
first (b ∷ v) = b % 256 ∷ []

instance abbrev pub toy : Crypto
toy = record {
  PublicKey = Bytes;
  PrivateKey = Bytes;
  sum256 = λ v. copies 32 (sum_bytes v);
  verify_asn1 = λ pk h s. beq s (first h);
  sign_asn1 = λ r sk h. some (first h);
  parse_pkix_public_key = ecdsa_key;
  parse_ec_private_key = some;
  marshal_pkix_public_key = some;
  marshal_ec_private_key = some;
  public_of = λ sk. sk;
}

length-copies : (k b : ℕ) → length (copies k b) ≡ k
length-copies zero b = refl
length-copies (suc k) b = omega (arith, length-copies k b)

copies-All : (k b : ℕ) → b < 256 → All IsByte (copies k b)
copies-All zero b small = tt
copies-All (suc k) b small = (small, copies-All k b small)

sum_bytes-lt : (v : Bytes) → sum_bytes v < 256
sum_bytes-lt [] = omega arith
sum_bytes-lt (b ∷ v) = omega arith

first-All : (h : Bytes) → All IsByte (first h)
first-All [] = (omega arith, tt)
first-All (b ∷ v) = (omega arith, tt)

pub toy-IsSum256 : IsSum256
toy-IsSum256 = record {
  sum256-All = λ v. copies-All 32 (sum_bytes v) (sum_bytes-lt v);
  length-sum256 = λ v. length-copies 32 (sum_bytes v);
}

abbrev pub alice_key : Bytes
alice_key = 10 ∷ 20 ∷ []

abbrev pub alice : SimpleId
alice = record {
  private_key = some alice_key;
  private_key_bytes = alice_key;
  public_key = some alice_key;
  public_key_bytes = alice_key;
}

verifies_first :
    (h s : Bytes) → Path (Option Bytes) (some (first h)) (some s) → beq s (first h) ≡ true
verifies_first h s e =
    subst (λ t. beq t (first h) ≡ true) (some-injective _ _ e) (beq_refl (first h))

pub alice-IsKeyPair : IsKeyPair alice_key alice_key alice_key
alice-IsKeyPair = record {
  pkb-All = (omega arith, (omega arith, tt));
  parses = refl;
  verifies = λ r h s e. verifies_first h s e;
  signs = λ r h. (first h, refl, first-All h);
}
