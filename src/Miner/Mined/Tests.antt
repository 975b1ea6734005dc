-- ===== src/Miner/Mined/Tests.antt =====
-- A miner whose pool has one transaction, and nodes to which its block comes.
use csci1951l_cryptocurrency.Prelude.{
  inr, List, [], ◌∷◌, true, false, some, ◌≡◌, ◌⊎◌, refl, sym, subst, arith, All, ltb,
}
use csci1951l_cryptocurrency.Prelude.Result.{ok}
use csci1951l_cryptocurrency.Text.{codes, is_less, join}
use csci1951l_cryptocurrency.Text.Decimal.{format}
use csci1951l_cryptocurrency.Text.Equality.{beq}
use csci1951l_cryptocurrency.Text.Hex.{encode_to_string, decode_string, decoded}
use csci1951l_cryptocurrency.Utils.Logging
use csci1951l_cryptocurrency.Utils.Logging.{fmt_addr}
use csci1951l_cryptocurrency.Dict.{lookup, contains}
use csci1951l_cryptocurrency.Crypto
use csci1951l_cryptocurrency.Crypto.Toy.{toy, toy-IsSum256}
use csci1951l_cryptocurrency.Proto
use csci1951l_cryptocurrency.Tx
use csci1951l_cryptocurrency.Tx.{Transaction}
use csci1951l_cryptocurrency.Tx.Txi
use csci1951l_cryptocurrency.Tx.Txo
use csci1951l_cryptocurrency.Tx.Txo.{mk_txo_loc}
use csci1951l_cryptocurrency.Block
use csci1951l_cryptocurrency.Block.{Block}
use csci1951l_cryptocurrency.Blockchain
use csci1951l_cryptocurrency.Miner.{
  Miner, Sent, send_blk, mine_round, new_mining_pool, reward_of, dif_trg, fill_pool, sum_fees,
  halve, all_some, gen_cb_tx, nonce_loop, calc_nonce, finish_round, hndl_blk, hndl_chk_blk,
  set_hash, inc_chn_len,
}
use csci1951l_cryptocurrency.Miner.TxPool
use csci1951l_cryptocurrency.Miner.Tests.{digger}
use csci1951l_cryptocurrency.Miner.Mined.{IsMined}
use csci1951l_cryptocurrency.Miner.Returns.{mine_round_returns}
use csci1951l_cryptocurrency.Node.Config
use csci1951l_cryptocurrency.Node.Validation.{chk_input, chk_inputs, chk_tx, chk_blk}
use csci1951l_cryptocurrency.Node.Validation.Mined.{mine_round_accepted}
use csci1951l_cryptocurrency.Node.Validation.Transactions.{IsSpendable, chk_tx_iff}
use csci1951l_cryptocurrency.Node.Tests.{owner, purchase}
use csci1951l_cryptocurrency.Node.{Node, Outcome}
use csci1951l_cryptocurrency.Node.Handlers.{seen, forward_block}
use csci1951l_cryptocurrency.Node.Handlers.Relay.{noted}
use csci1951l_cryptocurrency.Node.Handlers.Mined.{IsTakenUp, mine_round-IsTakenUp}

abbrev pub bought : Transaction
bought = Tx.deserialize purchase

abbrev pub worker : Miner
worker = record (digger (codes "ff")) {
  tx_p = record {
    cur_pri = 10;
    pri_lim = 10;
    tx_q = record { p = 10; t = bought } ∷ [];
    ct = 1;
    cap = 50;
  };
  prv_hsh = codes "0123456789";
}

-- The block that it finds at once, and the miner after that.
abbrev pub dug : Block
dug = record {
  hdr = record {
    ver = 0;
    prv_blk_hsh = codes "0123456789";
    mrkl_rt = codes "3636363636363636363636363636363636363636363636363636363636363636";
    timestamp = 0;
    diff_targ = codes "ff";
    nonce = 0;
  };
  transactions =
      record {
        version = 0;
        inputs = [];
        outputs = record { amount = 10; locking_script = codes "0a14"; liminal = false } ∷ [];
        lock_time = 0;
      }
      ∷ bought
      ∷ [];
}

pub after : Miner × List Sent
after = hndl_blk (some dug) (record worker { mining = false; mining_pool = bought ∷ [] })

pub dug-sent : mine_round (λ i. false) worker ≡ ok (after.0, send_blk dug ∷ after.1)
unfolding after mine_round new_mining_pool reward_of dif_trg fill_pool sum_fees halve all_some
    gen_cb_tx nonce_loop calc_nonce finish_round hndl_blk hndl_chk_blk set_hash inc_chn_len
    TxPool.pri_met Block.new Block.deref_all Block.calc_mrkl_rt Block.calc_mrkl_rt_within
    Block.leaves Block.mrkl_loop Block.join_pairs Block.pad_even Block.append_last Block.deserialize
    Block.satisfies_pow Block.hash Block.format_header Block.name_tag Block.summarize Tx.hash Tx.sz
    Tx.serialize Tx.deserialize Tx.sum_inputs Tx.sum_outputs Txi.hash Txo.hash Crypto.hash
    encode_to_string decode_string decoded format is_less Proto.sz_of_tx Proto.new_tx
    Proto.new_tx_outpt Logging.fmt_addr Logging.tag_of Logging.slice_to join Txo.deserialize
    Txi.deserialize Tx.name_tag Txo.serialize Txi.serialize
dug-sent = refl

bought-unspent : Blockchain.chk_chains_utxo (bought ∷ []) (codes "0123456789") owner.chain ≡ true
unfolding Blockchain.chk_chains_utxo lookup contains mk_txo_loc format beq Tx.deserialize
    Txi.deserialize
bought-unspent = refl

bought-checked : chk_tx (some bought) owner ≡ ok true
unfolding chk_tx chk_inputs chk_input Tx.sum_inputs Tx.sum_outputs Tx.deserialize Txo.deserialize
    Txi.deserialize Blockchain.get_utxo Blockchain.is_invalid_input contains lookup mk_txo_loc
    Txo.is_unlckd Txo.hash decoded decode_string Crypto.hash encode_to_string format Tx.sz
    Tx.serialize Proto.sz_of_tx Config.default_config Crypto.byt2pk beq
bought-checked = refl

pub bought-pooled : bought ∷ [] ≡ new_mining_pool worker
unfolding new_mining_pool fill_pool Tx.sz Tx.serialize Proto.sz_of_tx Tx.deserialize
bought-pooled = refl

mine_round_accepted_example :
    (chk_blk (some dug) owner ≡ ok (ltb 0 (reward_of (new_mining_pool worker) worker)))
    × (after.0.prv_hsh ≡ Block.hash dug)
unfolding Tx.sz Proto.sz_of_tx Tx.serialize Tx.deserialize Config.default_config
mine_round_accepted_example =
    mine_round_accepted (λ i. false) worker after.0 dug after.1 owner dug-sent
      (subst (All (IsSpendable owner)) bought-pooled
        ((chk_tx_iff bought owner).0 bought-checked, tt))
      (subst (λ pool. Blockchain.chk_chains_utxo pool (codes "0123456789") owner.chain ≡ true)
        bought-pooled bought-unspent)
      (omega arith) (omega arith) (omega arith) (omega arith)

-- The node where the block before it is the first.
abbrev pub first : Blockchain.BlockchainNode
first = Blockchain.root (record dug { transactions = [] }) 0 0

abbrev pub reached : Node
reached = record owner { chain = record owner.chain { blocks = (codes "0123456789", first) ∷ [] } }

reached-unspent : Blockchain.chk_chains_utxo (bought ∷ []) (codes "0123456789") reached.chain ≡ true
unfolding Blockchain.chk_chains_utxo lookup contains mk_txo_loc format beq Tx.deserialize
    Txi.deserialize
reached-unspent = refl

reached-checked : chk_tx (some bought) reached ≡ ok true
unfolding chk_tx chk_inputs chk_input Tx.sum_inputs Tx.sum_outputs Tx.deserialize Txo.deserialize
    Txi.deserialize Blockchain.get_utxo Blockchain.is_invalid_input contains lookup mk_txo_loc
    Txo.is_unlckd Txo.hash decoded decode_string Crypto.hash encode_to_string format Tx.sz
    Tx.serialize Proto.sz_of_tx Config.default_config Crypto.byt2pk beq
reached-checked = refl

pub worker-paid : reward_of (new_mining_pool worker) worker ≡ 10
unfolding reward_of sum_fees halve new_mining_pool fill_pool Tx.sz Tx.serialize Proto.sz_of_tx
    Tx.deserialize Txi.deserialize Txo.deserialize Tx.sum_inputs Tx.sum_outputs
worker-paid = refl

first-known : lookup (codes "0123456789") reached.chain.blocks ≡ some first
unfolding lookup beq
first-known = refl

dug-fresh : seen (Block.hash dug) reached.block_map ≡ false
unfolding seen lookup
dug-fresh = refl

mine_round-IsTakenUp_example :
    (o : Outcome) × (forward_block (Block.serialize dug) reached ≡ ok o)
    × IsTakenUp dug first (noted dug reached) o
unfolding Tx.sz Proto.sz_of_tx Tx.serialize Tx.deserialize Config.default_config
mine_round-IsTakenUp_example =
    mine_round-IsTakenUp (λ i. false) worker after.0 dug after.1 reached first dug-sent
      (subst (All (IsSpendable reached)) bought-pooled
        ((chk_tx_iff bought reached).0 reached-checked, tt))
      (subst (λ pool. Blockchain.chk_chains_utxo pool (codes "0123456789") reached.chain ≡ true)
        bought-pooled reached-unspent)
      (omega arith) (omega arith) (omega arith) (omega arith) (omega (arith, worker-paid))
      first-known dug-fresh (inr (omega arith))

worker-printed : fmt_addr worker.addr ≡ ok []
unfolding fmt_addr
worker-printed = refl

mine_round_returns_example :
    (m : Miner) × (sent : List Sent) × (mine_round (λ i. false) worker ≡ ok (m, sent))
    × ((sent ≡ [])
        ⊎ ((b : Block) × (rest : List Sent) × (sent ≡ send_blk b ∷ rest)
            × IsMined worker b
            × (m.prv_hsh ≡ Block.hash b)))
mine_round_returns_example =
    mine_round_returns (λ i. false) worker bought [] [] toy-IsSum256 (sym bought-pooled)
      (omega arith) worker-printed (omega arith)
