-- ===== src/Node/Local/Announced/Tests.antt =====
-- A miner's block at its own node and at a peer, at concrete nodes.
use csci1951l_cryptocurrency.Prelude.{
  inr, [], ◌∷◌, ◌++◌, false, true, some, ◌≡◌, refl, subst, arith, All,
}
use csci1951l_cryptocurrency.Prelude.Result.{ok}
use csci1951l_cryptocurrency.Text.{codes}
use csci1951l_cryptocurrency.Text.Decimal.{format}
use csci1951l_cryptocurrency.Text.Equality.{beq}
use csci1951l_cryptocurrency.Text.Hex.{encode_to_string, decode_string, decoded}
use csci1951l_cryptocurrency.Utils.Logging.{fmt_addr}
use csci1951l_cryptocurrency.Dict.{lookup, contains}
use csci1951l_cryptocurrency.Crypto
use csci1951l_cryptocurrency.Crypto.Toy.{toy, toy-IsSum256}
use csci1951l_cryptocurrency.Proto
use csci1951l_cryptocurrency.Tx
use csci1951l_cryptocurrency.Tx.Txi
use csci1951l_cryptocurrency.Tx.Txo
use csci1951l_cryptocurrency.Tx.Txo.{mk_txo_loc}
use csci1951l_cryptocurrency.Block
use csci1951l_cryptocurrency.Blockchain
use csci1951l_cryptocurrency.Blockchain.MainChain.{branch}
use csci1951l_cryptocurrency.Miner.Mined.Tests.{
  bought, worker, dug, after, dug-sent, first, reached, bought-pooled, worker-paid,
}
use csci1951l_cryptocurrency.Net.PeerDb
use csci1951l_cryptocurrency.Node.{Node, Outcome}
use csci1951l_cryptocurrency.Node.Config
use csci1951l_cryptocurrency.Node.Handlers.{seen, forward_block}
use csci1951l_cryptocurrency.Node.Local.{hndl_mnr_blk}
use csci1951l_cryptocurrency.Node.Local.Announced.{IsPrintable, IsAnnounced, mine_round-agrees}
use csci1951l_cryptocurrency.Node.Validation.{chk_tx, chk_inputs, chk_input}
use csci1951l_cryptocurrency.Node.Validation.Transactions.{IsSpendable, chk_tx_iff}

-- The block before is the last one.
abbrev ready : Node
ready = record reached { chain = record reached.chain { last_block = first } }

abbrev sender : Node
sender = record ready {
  peer_db = record ready.peer_db {
    peers = (codes "b:80", record { addr = 0; version = 0; best_height = 1 }) ∷ [];
  };
}

ready-checked : chk_tx (some bought) ready ≡ ok true
unfolding chk_tx chk_inputs chk_input Tx.sum_inputs Tx.sum_outputs Tx.deserialize Txo.deserialize
    Txi.deserialize Blockchain.get_utxo Blockchain.is_invalid_input contains lookup mk_txo_loc
    Txo.is_unlckd Txo.hash decoded decode_string Crypto.hash encode_to_string format Tx.sz
    Tx.serialize Proto.sz_of_tx Config.default_config Crypto.byt2pk beq
ready-checked = refl

ready-unspent : Blockchain.chk_chains_utxo (bought ∷ []) (codes "0123456789") ready.chain ≡ true
unfolding Blockchain.chk_chains_utxo lookup contains mk_txo_loc format beq Tx.deserialize
    Txi.deserialize
ready-unspent = refl

ready-known : lookup (codes "0123456789") ready.chain.blocks ≡ some first
unfolding lookup beq
ready-known = refl

dug-new : seen (Block.hash dug) ready.block_map ≡ false
unfolding seen lookup
dug-new = refl

sender-printed : fmt_addr sender.addr ≡ ok []
unfolding fmt_addr
sender-printed = refl

sender-IsPrintable : All (IsPrintable sender.memory) (PeerDb.list sender.peer_db)
unfolding fmt_addr PeerDb.list
sender-IsPrintable = (record { text = []; printed = refl }, tt)

mine_round-agrees_example :
    (oa : Outcome) × (on : Outcome) × (hndl_mnr_blk dug sender ≡ ok oa)
    × IsAnnounced dug sender oa
    × (forward_block (Block.serialize dug) ready ≡ ok on)
    × (branch on.node.chain.last_block ≡ branch first ++ dug ∷ [])
unfolding Tx.sz Proto.sz_of_tx Tx.serialize Tx.deserialize Config.default_config
mine_round-agrees_example =
    mine_round-agrees (λ i. false) worker after.0 dug after.1 sender ready [] toy-IsSum256 dug-sent
      (subst (All (IsSpendable ready)) bought-pooled
        ((chk_tx_iff bought ready).0 ready-checked, tt))
      (subst (λ pool. Blockchain.chk_chains_utxo pool (codes "0123456789") ready.chain ≡ true)
        bought-pooled ready-unspent)
      (omega arith) (omega arith) (omega arith) (omega arith) (omega (arith, worker-paid))
      ready-known ready-known dug-new (inr (omega arith)) (inr (omega arith)) sender-printed
      sender-IsPrintable
