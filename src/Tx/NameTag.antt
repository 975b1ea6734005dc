-- ===== src/Tx/NameTag.antt =====
-- The tag of a transaction in the messages.
use csci1951l_cryptocurrency.Prelude.{◌≤◌, ◌≡◌, arith, length}
use csci1951l_cryptocurrency.Prelude.Result.{ok}
use csci1951l_cryptocurrency.Text.{Bytes, codes}
use csci1951l_cryptocurrency.Text.Hex.RoundTrip.{length-encode}
use csci1951l_cryptocurrency.Utils.Logging.Printable.{tag_of_returns}
use csci1951l_cryptocurrency.Crypto
use csci1951l_cryptocurrency.Crypto.{Crypto, IsSum256}
use csci1951l_cryptocurrency.Tx
use csci1951l_cryptocurrency.Tx.{Transaction}

module _ ⦃crypto : Crypto⦄ where
  -- A hash is long enough for a tag.
  length-hash : IsSum256 → (t : Transaction) → 10 ≤ length (Tx.hash t)
  unfolding Tx.hash Crypto.hash
  length-hash law t = omega (arith, length-encode (crypto.sum256 _), law.length-sum256 _)

  pub name_tag_returns : IsSum256 → (t : Transaction) → (tag : Bytes) × (Tx.name_tag t ≡ ok tag)
  unfolding Tx.name_tag
  name_tag_returns law t =
      let long = length-hash law t in
      tag_of_returns (codes "tx-") 6 (Tx.hash t) long (omega (arith, long))
