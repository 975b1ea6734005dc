-- ===== src/Block/NameTag.antt =====
-- The texts of a block in the messages.
use csci1951l_cryptocurrency.Prelude.{◌≤◌, List, [], ◌∷◌, ◌++◌, ◌≡◌, refl, arith, length}
use csci1951l_cryptocurrency.Prelude.Result.{ok}
use csci1951l_cryptocurrency.Text.{Bytes, codes, join}
use csci1951l_cryptocurrency.Text.Hex.RoundTrip.{length-encode}
use csci1951l_cryptocurrency.Utils.Logging.Printable.{tag_of_returns}
use csci1951l_cryptocurrency.Crypto
use csci1951l_cryptocurrency.Crypto.{Crypto, IsSum256}
use csci1951l_cryptocurrency.Tx.{Transaction}
use csci1951l_cryptocurrency.Tx.NameTag.{name_tag_returns}
use csci1951l_cryptocurrency.Block.{Block, hash, name_tag, name_tags, summarize}

module _ ⦃crypto : Crypto⦄ where
  length-block_hash : IsSum256 → (b : Block) → 10 ≤ length (hash b)
  unfolding hash Crypto.hash
  length-block_hash law b = omega (arith, length-encode (crypto.sum256 _), law.length-sum256 _)

  pub block_tag_returns : IsSum256 → (b : Block) → (tag : Bytes) × (name_tag b ≡ ok tag)
  unfolding name_tag
  block_tag_returns law b =
      let long = length-block_hash law b in
      tag_of_returns (codes "block-") 8 (hash b) long (omega (arith, long))

  name_tags_return :
      IsSum256 → (txs : List Transaction) → (tags : List Bytes) × (name_tags txs ≡ ok tags)
  unfolding name_tags
  name_tags_return law [] = ([], refl)
  name_tags_return law (t ∷ txs) =
      let (tag, named) = name_tag_returns law t in
      let (tags, rest) = name_tags_return law txs in (tag ∷ tags, rw (named, rest))

  -- A block can be summarized if the hash of the block before it is long enough.
  pub summarize_returns :
      IsSum256
      → (b : Block) → 10 ≤ length b.hdr.prv_blk_hsh
      → (text : Bytes) × (summarize b ≡ ok text)
  unfolding summarize
  summarize_returns law b long =
      let (tags, named) = name_tags_return law b.transactions in
      let (prev, told) =
        tag_of_returns (codes "block-") 6 b.hdr.prv_blk_hsh long (omega (arith, long)) in
      (
        codes "{prev: " ++ (prev ++ (codes ", txs: [" ++ (join (codes ", ") tags ++ codes "]}"))),
        rw (named, told),
      )
