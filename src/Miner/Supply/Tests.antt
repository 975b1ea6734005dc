-- ===== src/Miner/Supply/Tests.antt =====
-- What a mined block adds, at a concrete miner and chain.
use csci1951l_cryptocurrency.Prelude.{
  ℕ, ◌+◌, ◌<◌, [], ◌∷◌, false, none, some, ◌≡◌, refl, arith, All, subst, List,
}
use csci1951l_cryptocurrency.Prelude.Word.{u32_mod}
use csci1951l_cryptocurrency.Prelude.Result.{ok}
use csci1951l_cryptocurrency.Text.{Bytes, codes, is_less, join}
use csci1951l_cryptocurrency.Text.Decimal.{format}
use csci1951l_cryptocurrency.Text.Equality.{beq, beq_iff}
use csci1951l_cryptocurrency.Text.Hex.{encode_to_string, decode_string, decoded}
use csci1951l_cryptocurrency.Utils.Logging
use csci1951l_cryptocurrency.Dict.{lookup, insert}
use csci1951l_cryptocurrency.Crypto
use csci1951l_cryptocurrency.Crypto.Toy.{toy}
use csci1951l_cryptocurrency.Proto
use csci1951l_cryptocurrency.Tx
use csci1951l_cryptocurrency.Tx.{Transaction}
use csci1951l_cryptocurrency.Tx.Txi
use csci1951l_cryptocurrency.Tx.Txo
use csci1951l_cryptocurrency.Tx.Txo.{TransactionOutput, mk_txo_loc}
use csci1951l_cryptocurrency.Tx.Txo.Locator.{IsDashless, mk_txo_loc_inj}
use csci1951l_cryptocurrency.Block
use csci1951l_cryptocurrency.Block.{Block}
use csci1951l_cryptocurrency.Blockchain
use csci1951l_cryptocurrency.Blockchain.{Blockchain, Utxo, last_utxo, write_map, append_to, block}
use csci1951l_cryptocurrency.Blockchain.Config as ChainConfig
use csci1951l_cryptocurrency.Blockchain.Canonical.{IsCanonical}
use csci1951l_cryptocurrency.Blockchain.Invariant.{IsTree, new-IsTree}
use csci1951l_cryptocurrency.Blockchain.Supply.{worth, IsBacked, all_claimed}
use csci1951l_cryptocurrency.Blockchain.Unspent.{hash-IsDashless}
use csci1951l_cryptocurrency.Miner.{
  Miner, Sent, send_blk, mine_round, new_mining_pool, reward_of, dif_trg, fill_pool, sum_fees,
  halve, all_some, gen_cb_tx, nonce_loop, calc_nonce, finish_round, hndl_blk, hndl_chk_blk,
  set_hash, inc_chn_len,
}
use csci1951l_cryptocurrency.Miner.TxPool
use csci1951l_cryptocurrency.Miner.Mined.Tests.{bought, worker, dug}
use csci1951l_cryptocurrency.Miner.Supply.{IsCovered, minted, mine_round-supply}
use csci1951l_cryptocurrency.Node.Tests.{hers}

abbrev coin : Bytes
coin = mk_txo_loc (codes "t") 0

-- A chain of one block, with an output of five.
abbrev start : Blockchain
start = record (Blockchain.new ChainConfig.default_config) {
  maps = write_map 0 ((coin, hers) ∷ []) (λ r. []);
}

abbrev prv : Bytes
prv = Block.hash (block start.last_block)

abbrev maker : Miner
maker = record worker { prv_hsh = prv }

abbrev made : Block
made = record dug { hdr = record dug.hdr { prv_blk_hsh = prv } }

abbrev reward : Transaction
reward = record {
  version = 0;
  inputs = [];
  outputs = record { amount = 10; locking_script = codes "0a14"; liminal = false } ∷ [];
  lock_time = 0;
}

after : Miner × List Sent
after = hndl_blk (some made) (record maker { mining = false; mining_pool = bought ∷ [] })

made-sent : mine_round (λ i. false) maker ≡ ok (after.0, send_blk made ∷ after.1)
unfolding after mine_round new_mining_pool reward_of dif_trg fill_pool sum_fees halve all_some
    gen_cb_tx nonce_loop calc_nonce finish_round hndl_blk hndl_chk_blk set_hash inc_chn_len
    TxPool.pri_met Block.new Block.deref_all Block.calc_mrkl_rt Block.calc_mrkl_rt_within
    Block.leaves Block.mrkl_loop Block.join_pairs Block.pad_even Block.append_last Block.deserialize
    Block.satisfies_pow Block.hash Block.format_header Block.name_tag Block.summarize Tx.hash Tx.sz
    Tx.serialize Tx.deserialize Tx.sum_inputs Tx.sum_outputs Txi.hash Txo.hash Crypto.hash
    encode_to_string decode_string decoded format is_less Proto.sz_of_tx Proto.new_tx
    Proto.new_tx_outpt Logging.fmt_addr Logging.tag_of Logging.slice_to join Txo.deserialize
    Txi.deserialize Tx.name_tag Txo.serialize Txi.serialize Blockchain.new Blockchain.genesis_block
made-sent = refl

start-IsTree : IsTree start
unfolding Blockchain.new
start-IsTree =
    let t = new-IsTree ChainConfig.default_config in
    record { entry = t.entry; last_chain = t.last_chain; last_known = t.last_known }

start-map : last_utxo start ≡ (coin, hers) ∷ []
unfolding Blockchain.new
start-map = refl

start-IsCanonical : IsCanonical (last_utxo start)
unfolding lookup
start-IsCanonical = rw start-map (
  refl,
  record {
    tx_hash = codes "t";
    index = 0;
    named = refl;
    dashless = (ground arith, tt);
    fits = omega arith;
  },
  tt,
)

-- An entry under another hash is passed over.
lookup_beside :
    (h h' : Bytes) (i j : ℕ) (o : TransactionOutput) (u : Utxo)
    → IsDashless h
    → IsDashless h'
    → i < u32_mod
    → j < u32_mod
    → beq h' h ≡ false
    → lookup (mk_txo_loc h j) u ≡ none
    → lookup (mk_txo_loc h j) ((mk_txo_loc h' i, o) ∷ u) ≡ none
unfolding lookup
lookup_beside h h' i j o u d d' small fits other absent = ground (
  arith,
  absent,
  other,
  beq_iff h' h,
  beq_iff (mk_txo_loc h' i) (mk_txo_loc h j),
  mk_txo_loc_inj h' h i j d' d small fits,
)

t-IsDashless : IsDashless (codes "t")
t-IsDashless = (ground arith, tt)

reward-other : beq (codes "t") (Tx.hash reward) ≡ false
unfolding beq Tx.hash Txo.hash Crypto.hash encode_to_string format join
reward-other = refl

reward-IsBacked : IsBacked reward (last_utxo start)
unfolding lookup
reward-IsBacked = rw start-map (record {
  exact = tt;
  fresh = λ j from fits.
      lookup_beside (Tx.hash reward) (codes "t") 0 j hers [] (hash-IsDashless reward) t-IsDashless
        (omega arith) fits reward-other refl;
  few = omega arith;
})

abbrev paid_out : TransactionOutput
paid_out = record { amount = 10; locking_script = codes "0a14"; liminal = false }

rewarded :
    Blockchain.apply_tx reward (last_utxo start)
    ≡ (coin, hers) ∷ (mk_txo_loc (Tx.hash reward) 0, paid_out) ∷ []
unfolding Blockchain.apply_tx Blockchain.add_outputs Blockchain.spend_inputs insert beq Tx.hash
    Txo.hash Crypto.hash encode_to_string format mk_txo_loc Blockchain.new join
rewarded = refl

bought-other : beq (codes "t") (Tx.hash bought) ≡ false
unfolding beq Tx.hash Txo.hash Txi.hash Crypto.hash encode_to_string format Tx.deserialize
    Txi.deserialize Txo.deserialize join
bought-other = refl

bought-new : beq (Tx.hash reward) (Tx.hash bought) ≡ false
unfolding beq Tx.hash Txo.hash Txi.hash Crypto.hash encode_to_string format Tx.deserialize
    Txi.deserialize Txo.deserialize join
bought-new = refl

bought-IsBacked : IsBacked bought (Blockchain.apply_tx reward (last_utxo start))
unfolding lookup Tx.deserialize Txi.deserialize beq mk_txo_loc format
bought-IsBacked = rw rewarded (record {
  exact = (hers, refl, refl, tt);
  fresh = λ j from fits.
      lookup_beside (Tx.hash bought) (codes "t") 0 j hers
        ((mk_txo_loc (Tx.hash reward) 0, paid_out) ∷ []) (hash-IsDashless bought) t-IsDashless
        (omega arith) fits bought-other
        (lookup_beside (Tx.hash bought) (Tx.hash reward) 0 j paid_out [] (hash-IsDashless bought)
          (hash-IsDashless reward) (omega arith) fits bought-new refl);
  few = omega arith;
})

mint : minted maker ≡ 10
unfolding minted halve
mint = refl

start-add : Blockchain.add (some made) start ≡ ok (append_to made start.last_block start)
unfolding Blockchain.add Blockchain.new Blockchain.genesis_block lookup Block.hash
    Block.format_header Crypto.hash encode_to_string beq format
start-add = refl

maker-pooled : bought ∷ [] ≡ new_mining_pool maker
unfolding new_mining_pool fill_pool Tx.sz Tx.serialize Proto.sz_of_tx Tx.deserialize
maker-pooled = refl

maker-IsCovered : All IsCovered (new_mining_pool maker)
unfolding Tx.deserialize Txi.deserialize Txo.deserialize
maker-IsCovered = subst (All IsCovered) maker-pooled (omega arith, tt)

maker-small : all_claimed (new_mining_pool maker) + minted maker < u32_mod
unfolding Tx.deserialize Txi.deserialize
maker-small =
    subst (λ pool. all_claimed pool + minted maker < u32_mod) maker-pooled (omega (arith, mint))

mine_round-supply_example :
    worth (last_utxo (append_to made start.last_block start))
    ≡ worth (last_utxo start) + minted maker
mine_round-supply_example =
    mine_round-supply (λ i. false) maker after.0 made after.1 start
      (append_to made start.last_block start) made-sent start-IsTree start-IsCanonical
      (reward-IsBacked, (bought-IsBacked, tt)) maker-IsCovered maker-small start-add
