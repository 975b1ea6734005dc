-- ===== src/Node/Runs/Tests.antt =====
-- The theorems on runs at concrete ones.
use csci1951l_cryptocurrency.Prelude.{◌<◌, [], ◌++◌, true, false, some, ◌≡◌, refl, arith}
use csci1951l_cryptocurrency.Prelude.Int.{negsuc}
use csci1951l_cryptocurrency.Prelude.Word.{u32_mod}
use csci1951l_cryptocurrency.Prelude.Result.{ok}
use csci1951l_cryptocurrency.Text.{codes}
use csci1951l_cryptocurrency.Text.Decimal.{format}
use csci1951l_cryptocurrency.Text.Equality.{beq}
use csci1951l_cryptocurrency.Text.Hex.{encode_to_string, decode_string, decoded}
use csci1951l_cryptocurrency.Utils.Logging.{fmt_addr}
use csci1951l_cryptocurrency.Dict.{lookup, contains}
use csci1951l_cryptocurrency.Crypto
use csci1951l_cryptocurrency.Crypto.Toy.{toy, toy-IsSum256, alice}
use csci1951l_cryptocurrency.Proto
use csci1951l_cryptocurrency.Proto.{VersionRequest}
use csci1951l_cryptocurrency.Tx
use csci1951l_cryptocurrency.Tx.Txi
use csci1951l_cryptocurrency.Tx.Txo
use csci1951l_cryptocurrency.Tx.Txo.{mk_txo_loc}
use csci1951l_cryptocurrency.Blockchain
use csci1951l_cryptocurrency.Miner.{Miner}
use csci1951l_cryptocurrency.Miner.Soundness.{IsPoolSound}
use csci1951l_cryptocurrency.Miner.Config as MinerConfig
use csci1951l_cryptocurrency.Miner.TxPool.Pooled.{IsPooled}
use csci1951l_cryptocurrency.Net.Tests.{answering}
use csci1951l_cryptocurrency.Node.{Node}
use csci1951l_cryptocurrency.Node.Config
use csci1951l_cryptocurrency.Node.Handlers.{version, seen}
use csci1951l_cryptocurrency.Node.Local.{new}
use csci1951l_cryptocurrency.Node.Soundness.{IsSoundChain}
use csci1951l_cryptocurrency.Node.Tests.{owner, purchase}
use csci1951l_cryptocurrency.Node.Validation.{chk_tx, chk_inputs, chk_input}
use csci1951l_cryptocurrency.Node.Runs.{
  System, idle, after, Reaches, stays, steps, handles, by_version,
}
use csci1951l_cryptocurrency.Node.Runs.Progress.{relays, forward_transaction-IsPooled}
use csci1951l_cryptocurrency.Node.Runs.Soundness.{new-Reaches-IsSound}

abbrev newcomer : Node
newcomer = new (Config.default_config 80) alice

abbrev greeting : VersionRequest
greeting = record { version = 0; addr_you = codes "a:80"; addr_me = codes "b:80"; best_height = 1 }

-- A new node gets the request of another node.
abbrev greeted : System
greeted = after (version greeting 5 newcomer) (idle newcomer)

capacity : (Config.default_config 80).mnr_conf.tx_p_cap < u32_mod
unfolding Config.default_config MinerConfig.default_config
capacity = omega arith

new-Reaches-IsSound_example : IsSoundChain greeted.node.chain × IsPoolSound greeted.node.mnr
new-Reaches-IsSound_example =
    new-Reaches-IsSound answering (Config.default_config 80) alice greeted capacity (
      steps (idle newcomer) greeted stays
        (handles (version greeting 5 newcomer) (by_version greeting 5)))

abbrev pub digger : Miner
digger = record {
  conf = MinerConfig.small_tx_p_cap_config (negsuc 0);
  id = alice;
  tx_p = record { cur_pri = 0; pri_lim = 10; tx_q = []; ct = 0; cap = 1 };
  mining_pool = [];
  prv_hsh = [];
  addr = [];
  chn_len = 1;
  active = true;
  mining = false;
}

-- The owner of an output with a miner.
abbrev shop : System
shop = idle (record owner { mnr = some digger })

purchase-valid : chk_tx (some (Tx.deserialize purchase)) shop.node ≡ ok true
unfolding chk_tx chk_inputs chk_input Tx.sum_inputs Tx.sum_outputs Tx.deserialize Txo.deserialize
    Txi.deserialize Blockchain.get_utxo Blockchain.is_invalid_input contains lookup mk_txo_loc
    Txo.is_unlckd Txo.hash decoded decode_string Crypto.hash encode_to_string format Tx.sz
    Tx.serialize Proto.sz_of_tx Config.default_config Crypto.byt2pk beq
purchase-valid = refl

purchase-new : seen (Tx.hash (Tx.deserialize purchase)) shop.node.tx_map ≡ false
unfolding seen lookup
purchase-new = refl

shop-printed : fmt_addr shop.node.addr ≡ ok []
unfolding fmt_addr
shop-printed = refl

shop-mines : shop.node.conf.mnr_conf.has_mnr ≡ true
unfolding Config.default_config MinerConfig.default_config
shop-mines = refl

forward_transaction-IsPooled_example :
    (s' : System) × (m' : Miner) × Reaches answering shop s'
    × (s'.node.mnr ≡ some m')
    × IsPooled (Tx.deserialize purchase) m'.tx_p
    × (s'.calls ≡ shop.calls ++ relays (Tx.deserialize purchase) shop.node)
forward_transaction-IsPooled_example =
    forward_transaction-IsPooled answering 0 purchase shop digger [] toy-IsSum256 shop-printed
      purchase-valid purchase-new shop-mines refl (omega arith)
