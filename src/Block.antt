-- ===== src/Block.antt =====
-- BrunoCoin/pkg/block/block.go
pub mod Made
pub mod Merkle
pub mod NameTag
pub mod RoundTrip
pub mod Tests
use csci1951l_cryptocurrency.Prelude.{
  ℕ, zero, suc, ◌+◌, ◌%◌, ◌++◌, List, [], ◌∷◌, map, Bool, true, false, not, ◌&&◌, Option, none,
  some, length, ltb, ◌==◌, if◌then◌else◌,
}
use csci1951l_cryptocurrency.Prelude.Result.{Result, ok, panic, out_of_fuel, ◌>>=◌, deref}
use csci1951l_cryptocurrency.Text.{Bytes, codes, join, is_less}
use csci1951l_cryptocurrency.Text.Decimal.{format}
use csci1951l_cryptocurrency.Text.Hex.{decode_string, decoded}
use csci1951l_cryptocurrency.Utils.Logging.{tag_of}
use csci1951l_cryptocurrency.Crypto
use csci1951l_cryptocurrency.Crypto.{Crypto}
use csci1951l_cryptocurrency.Proto
use csci1951l_cryptocurrency.Tx
use csci1951l_cryptocurrency.Tx.{Transaction}

pub record Header : Type 0 where
  pub ver : ℕ
  pub prv_blk_hsh : Bytes
  pub mrkl_rt : Bytes
  pub timestamp : ℕ
  pub diff_targ : Bytes
  pub nonce : ℕ

pub record Block : Type 0 where
  pub hdr : Header
  pub transactions : List Transaction

-- A block without a header is a nil dereference.
unfoldable pub deserialize : Proto.Block → Result Block
deserialize b = do
  h ← deref b.header
  ok (record {
    hdr = record {
      ver = h.version;
      prv_blk_hsh = h.prev_block_hash;
      mrkl_rt = h.merkle_root;
      timestamp = h.timestamp;
      diff_targ = h.difficulty_target;
      nonce = h.nonce;
    };
    transactions = map Tx.deserialize b.transactions;
  })

unfoldable pub serialize : Block → Proto.Block
serialize b = record {
  header = some (record {
    version = b.hdr.ver;
    prev_block_hash = b.hdr.prv_blk_hsh;
    merkle_root = b.hdr.mrkl_rt;
    timestamp = b.hdr.timestamp;
    difficulty_target = b.hdr.diff_targ;
    nonce = b.hdr.nonce;
  });
  transactions = map Tx.serialize b.transactions;
}

unfoldable pub sz : Block → Result ℕ
sz b = Proto.sz_of_blk (serialize b)

-- `append(l, l[len(l)-1])`
unfoldable pub append_last {ℓ} : {A : Type ℓ} → List A → List A
append_last [] = []
append_last (x ∷ []) = x ∷ x ∷ []
append_last (x ∷ y ∷ l) = x ∷ append_last (y ∷ l)

unfoldable pub pad_even {ℓ} : {A : Type ℓ} → List A → List A
unfolding append_last
pad_even l = if length l % 2 == 0 then l else append_last l

-- `%v` of the header: its fields in braces, with blanks between.
unfoldable pub format_header : Header → Bytes
format_header h =
    b'{'
    ∷ (format h.ver
        ++ b' '
          ∷ (h.prv_blk_hsh
              ++ b' '
                ∷ (h.mrkl_rt
                    ++ b' '
                      ∷ (format h.timestamp
                          ++ b' ' ∷ (h.diff_targ ++ b' ' ∷ (format h.nonce ++ b'}' ∷ []))))))

module _ ⦃crypto : Crypto⦄ where
  unfoldable pub hash : Block → Bytes
  hash b = Crypto.hash (format_header b.hdr)

  unfoldable pub satisfies_pow : Block → Bytes → Bool
  satisfies_pow b dt = elim (decoded (hash b)) [
    | none ↦ false
    | some hsh ↦ elim (decoded dt) [ none ↦ false | some dif_trg ↦ is_less hsh dif_trg ]
  ]

  -- The hashes of a level, joined in pairs; the level has an even number of them. A decoding error
  -- is dropped, with the bytes before it kept.
  unfoldable pub join_pairs : List Bytes → List Bytes
  join_pairs (x ∷ y ∷ hshs) =
      Crypto.hash ((decode_string x).0 ++ (decode_string y).0) ∷ join_pairs hshs
  join_pairs hshs = []

  -- The loop of `CalcMrklRt`, which runs while there is not exactly one hash.
  unfoldable pub mrkl_loop : ℕ → List Bytes → Result Bytes
  mrkl_loop zero hshs = out_of_fuel
  mrkl_loop (suc fuel) (h ∷ []) = ok h
  mrkl_loop (suc fuel) hshs = mrkl_loop fuel (join_pairs (pad_even hshs))

  -- The leaves: with more than one transaction and an odd number, the last one is doubled.
  unfoldable pub leaves : List Transaction → List Bytes
  leaves txs = map Tx.hash (if ltb 1 (length txs) then pad_even txs else txs)

  unfoldable pub calc_mrkl_rt_within : ℕ → List Transaction → Result Bytes
  unfolding leaves mrkl_loop join_pairs pad_even
  calc_mrkl_rt_within fuel txs = mrkl_loop fuel (leaves txs)

  unfoldable pub calc_mrkl_rt : List Transaction → Result Bytes
  unfolding calc_mrkl_rt_within
  calc_mrkl_rt txs = calc_mrkl_rt_within (length txs + 2) txs

  -- The transactions behind the pointers; a nil one is dereferenced.
  unfoldable pub deref_all : List (Option Transaction) → Result (List Transaction)
  deref_all [] = ok []
  deref_all (none ∷ txs) = panic
  deref_all (some t ∷ txs) = do ts ← deref_all txs; ok (t ∷ ts)

  unfoldable pub new : Bytes → List (Option Transaction) → Bytes → Result Block
  unfolding deref_all
  new prv_hsh txs target = do
    ts ← deref_all txs
    rt ← calc_mrkl_rt ts
    deserialize (record {
      header = some (record {
        version = 0;
        prev_block_hash = prv_hsh;
        merkle_root = rt;
        timestamp = 0;
        difficulty_target = target;
        nonce = 0;
      });
      transactions = map Tx.serialize ts;
    })

  unfoldable pub name_tag : Block → Result Bytes
  name_tag b = tag_of (codes "block-") 8 (hash b)

  -- The loop of `Summarize`.
  name_tags : List Transaction → Result (List Bytes)
  name_tags [] = ok []
  name_tags (t ∷ txs) = do tag ← Tx.name_tag t; tags ← name_tags txs; ok (tag ∷ tags)

  unfoldable pub summarize : Block → Result Bytes
  unfolding name_tags
  summarize b = do
    txs ← name_tags b.transactions
    prev ← tag_of (codes "block-") 6 b.hdr.prv_blk_hsh
    ok (codes "{prev: " ++ (prev ++ (codes ", txs: [" ++ (join (codes ", ") txs ++ codes "]}"))))
