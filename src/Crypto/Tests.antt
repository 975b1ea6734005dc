-- ===== src/Crypto/Tests.antt =====
-- An identity at the small instance of the parameter.
use mathlib.Core.Option.{some-injective}
use csci1951l_cryptocurrency.Prelude.{some, ◌≡◌, refl, sym, ap, subst, All, arith}
use csci1951l_cryptocurrency.Prelude.Result.{ok}
use csci1951l_cryptocurrency.Text.{Bytes}
use csci1951l_cryptocurrency.Text.Hex.{encode_to_string}
use csci1951l_cryptocurrency.Text.Hex.RoundTrip.{IsByte}
use csci1951l_cryptocurrency.Crypto.{ecdsa_key}
use csci1951l_cryptocurrency.Crypto.Id.{load_in_smpl_id, create_simple_id}
use csci1951l_cryptocurrency.Crypto.Id.Reload.{IsFormatted, load-create}
use csci1951l_cryptocurrency.Crypto.Toy.{toy, alice_key, alice}

alice_key-All : (b : Bytes) → some alice_key ≡ some b → All IsByte b
alice_key-All b e = subst (All IsByte) (some-injective _ _ e) (omega arith, (omega arith, tt))

alice_key-IsFormatted : IsFormatted alice_key
alice_key-IsFormatted = record {
  private_bytes = alice_key-All;
  private_back = λ b e. sym e;
  public_bytes = alice_key-All;
  public_back = λ b e. ap ecdsa_key (sym (some-injective _ _ e));
}

alice-created : create_simple_id (some alice_key) ≡ some alice
unfolding create_simple_id
alice-created = refl

load-create_example :
    load_in_smpl_id
      (encode_to_string alice.public_key_bytes)
      (encode_to_string alice.private_key_bytes)
    ≡ ok (record alice { private_key_bytes = alice.public_key_bytes })
load-create_example = load-create alice_key alice alice_key-IsFormatted alice-created
