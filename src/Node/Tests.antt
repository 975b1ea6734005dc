-- ===== src/Node/Tests.antt =====
-- The theorems on a node at a concrete one.
use csci1951l_cryptocurrency.Prelude.{[], ◌∷◌, ◌++◌, take, true, false, none, some, ◌≡◌, ◌↔◌, refl}
use csci1951l_cryptocurrency.Prelude.Result.{ok, panic}
use csci1951l_cryptocurrency.Text.{Bytes, codes, is_less}
use csci1951l_cryptocurrency.Text.Decimal.{format}
use csci1951l_cryptocurrency.Text.Hex.{encode_to_string, decode_string, decoded}
use csci1951l_cryptocurrency.Utils.Logging
use csci1951l_cryptocurrency.Dict.{lookup, contains}
use csci1951l_cryptocurrency.Crypto
use csci1951l_cryptocurrency.Crypto.Toy.{toy, alice}
use csci1951l_cryptocurrency.Proto
use csci1951l_cryptocurrency.Tx
use csci1951l_cryptocurrency.Tx.{Transaction}
use csci1951l_cryptocurrency.Tx.Txi
use csci1951l_cryptocurrency.Tx.Txo
use csci1951l_cryptocurrency.Tx.Txo.{mk_txo_loc}
use csci1951l_cryptocurrency.Text.Equality.{beq}
use csci1951l_cryptocurrency.Block
use csci1951l_cryptocurrency.Block.{Block}
use csci1951l_cryptocurrency.Blockchain
use csci1951l_cryptocurrency.Blockchain.Config as ChainConfig
use csci1951l_cryptocurrency.Node.{Node}
use csci1951l_cryptocurrency.Node.Config
use csci1951l_cryptocurrency.Node.Validation.{
  chk_input, chk_inputs, chk_tx, chk_all, chk_blk_end, chk_blk,
}
use csci1951l_cryptocurrency.Node.Validation.Transactions.{IsSpendable, chk_tx_iff}
use csci1951l_cryptocurrency.Node.Handlers.{
  seen, unchanged, accept_tx, forward_transaction, forward_block,
}
use csci1951l_cryptocurrency.Node.Handlers.Relay.{
  noted, forward_transaction_once, forward_block_once, forward_block_orphan,
}

-- A node with a new chain and no peer, which has seen nothing.
abbrev pub peerless : Node
peerless = record {
  conf = Config.default_config 80;
  addr = [];
  id = alice;
  chain = Blockchain.new ChainConfig.default_config;
  wallet = none;
  mnr = none;
  memory = record { at = λ r. record { addr = []; last_seen = 0; sent_ver = 0 }; next = 0 };
  addr_db = record { addresses = []; limit = 10 };
  peer_db = record { peers = []; limit = 10; own_addr = [] };
  tx_map = [];
  block_map = [];
}

-- A node whose tree has no entry.
abbrev lost : Node
lost = record peerless {
  chain = record {
    addr = [];
    blocks = [];
    last_block =
        Blockchain.root
          (record {
            hdr = record {
              ver = 0;
              prv_blk_hsh = [];
              mrkl_rt = [];
              timestamp = 0;
              diff_targ = [];
              nonce = 0;
            };
            transactions = [];
          })
          0 0;
    maps = λ r. [];
  };
}

-- A coinbase transaction, as a message.
abbrev reward : Proto.Transaction
reward = record {
  version = 0;
  inputs = [];
  outputs = record { amount = 5; locking_script = [] } ∷ [];
  lock_time = 0;
}

-- A block with the coinbase alone, an easy target, and a previous block that nobody knows.
abbrev stray : Proto.Block
stray = record {
  header = some (record {
    version = 0;
    prev_block_hash = codes "x";
    merkle_root = [];
    timestamp = 0;
    difficulty_target = codes "ff";
    nonce = 0;
  });
  transactions = reward ∷ [];
}

abbrev pub stray_block : Block
stray_block = record {
  hdr = record {
    ver = 0;
    prv_blk_hsh = codes "x";
    mrkl_rt = [];
    timestamp = 0;
    diff_targ = codes "ff";
    nonce = 0;
  };
  transactions = Tx.deserialize reward ∷ [];
}

-- The same block without a transaction, which is refused.
abbrev hollow : Proto.Block
hollow = record stray { transactions = [] }

abbrev hollow_block : Block
hollow_block = record stray_block { transactions = [] }

stray-read : Block.deserialize stray ≡ ok stray_block
unfolding Block.deserialize
stray-read = refl

stray-chk_blk : chk_blk (some stray_block) (noted stray_block lost) ≡ ok true
unfolding chk_blk chk_all chk_blk_end Tx.is_coinbase Tx.deserialize Blockchain.chk_chains_utxo
    Block.sz Block.satisfies_pow Block.hash decoded decode_string Crypto.hash encode_to_string
    Block.format_header format is_less Tx.sum_outputs Tx.sz Proto.sz_of_tx Proto.sz_of_blk
    Proto.sz_of_hdr Tx.serialize Config.default_config Block.serialize Txo.deserialize
stray-chk_blk = refl

stray-fresh : seen (Block.hash stray_block) lost.block_map ≡ false
unfolding seen lookup
stray-fresh = refl

stray-orphan : contains stray_block.hdr.prv_blk_hsh lost.chain.blocks ≡ false
unfolding contains lookup
stray-orphan = refl

hollow-refused : forward_block hollow peerless ≡ ok (unchanged (noted hollow_block peerless) true)
unfolding forward_block chk_blk Block.deserialize seen lookup Block.name_tag Block.hash Crypto.hash
    encode_to_string Logging.fmt_addr Logging.tag_of Logging.slice_to
hollow-refused = refl

reward-refused :
    forward_transaction (record reward { outputs = [] }) peerless ≡ ok (unchanged peerless true)
unfolding forward_transaction seen lookup chk_tx Tx.sum_outputs Tx.deserialize Tx.name_tag Tx.hash
    Crypto.hash encode_to_string Logging.fmt_addr Logging.tag_of Logging.slice_to
reward-refused = refl

-- An output for the identity, a chain that has it, and a transaction that spends it.
abbrev pub hers : Txo.TransactionOutput
hers = record {
  amount = 5;
  locking_script = encode_to_string alice.public_key_bytes;
  liminal = false;
}

abbrev pub owner : Node
owner = record peerless {
  chain = record lost.chain { maps = λ r. (mk_txo_loc (codes "t") 0, hers) ∷ [] };
}

-- What unlocks the output.
abbrev pub her_script : Bytes
her_script = encode_to_string (take 1 (toy.sum256 (format 5 ++ b'/' ∷ hers.locking_script)))

abbrev pub purchase : Proto.Transaction
purchase = record reward {
  inputs =
      record {
        transaction_hash = codes "t";
        output_index = 0;
        unlocking_script = her_script;
        amount = 5;
      }
      ∷ [];
}

purchase-heard : forward_transaction purchase owner ≡ ok (accept_tx (Tx.deserialize purchase) owner)
unfolding forward_transaction seen lookup chk_tx chk_inputs chk_input Tx.sum_inputs Tx.sum_outputs
    Tx.deserialize Txo.deserialize Txi.deserialize Blockchain.get_utxo Blockchain.is_invalid_input
    contains mk_txo_loc Txo.is_unlckd Txo.hash decoded decode_string Crypto.hash encode_to_string
    format Tx.sz Tx.serialize Proto.sz_of_tx Config.default_config Crypto.byt2pk beq Tx.name_tag
    Tx.hash Logging.fmt_addr Logging.tag_of Logging.slice_to
purchase-heard = refl

purchase-fine : (accept_tx (Tx.deserialize purchase) owner).failed ≡ false
unfolding accept_tx
purchase-fine = refl

chk_tx_iff_example :
    (chk_tx (some (Tx.deserialize purchase)) owner ≡ ok true)
    ↔ IsSpendable owner (Tx.deserialize purchase)
chk_tx_iff_example = chk_tx_iff (Tx.deserialize purchase) owner

forward_transaction_once_example :
    forward_transaction purchase (accept_tx (Tx.deserialize purchase) owner).node
    ≡ ok (unchanged (accept_tx (Tx.deserialize purchase) owner).node false)
forward_transaction_once_example =
    forward_transaction_once purchase owner (accept_tx (Tx.deserialize purchase) owner)
      purchase-heard purchase-fine

forward_block_once_example :
    forward_block hollow (noted hollow_block peerless)
    ≡ ok (unchanged (noted hollow_block peerless) false)
forward_block_once_example =
    forward_block_once hollow peerless (unchanged (noted hollow_block peerless) true) hollow-refused

forward_block_orphan_example : forward_block stray lost ≡ panic
forward_block_orphan_example =
    forward_block_orphan stray stray_block lost stray-read stray-fresh stray-chk_blk stray-orphan
