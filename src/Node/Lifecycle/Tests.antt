-- ===== src/Node/Lifecycle/Tests.antt =====
-- Starting, pausing and resuming a concrete node.
use csci1951l_cryptocurrency.Prelude.{List, [], ◌∷◌, Bool, false, ◌||◌, if◌then◌else◌, none, some}
use csci1951l_cryptocurrency.Text.{Bytes, codes}
use csci1951l_cryptocurrency.Text.Equality.{beq}
use csci1951l_cryptocurrency.Crypto.Toy.{toy, alice}
use csci1951l_cryptocurrency.Blockchain
use csci1951l_cryptocurrency.Blockchain.Config as ChainConfig
use csci1951l_cryptocurrency.Miner.Config as MinerConfig
use csci1951l_cryptocurrency.Wallet
use csci1951l_cryptocurrency.Wallet.{Wallet}
use csci1951l_cryptocurrency.Wallet.Config as WalletConfig
use csci1951l_cryptocurrency.Net.Client.{Grpc}
use csci1951l_cryptocurrency.Net.PeerDb
use csci1951l_cryptocurrency.Node.Config
use csci1951l_cryptocurrency.Node.Tests.{peerless}
use csci1951l_cryptocurrency.Node.Lifecycle.{Online}

is_bound : Bytes → List Bytes → Bool
is_bound addr [] = false
is_bound addr (a ∷ bound) = beq addr a || is_bound addr bound

unbind : Bytes → List Bytes → List Bytes
unbind addr [] = []
unbind addr (a ∷ bound) = if beq addr a then bound else a ∷ unbind addr bound

-- A library that never connects, and whose state is the addresses at which servers listen.
abbrev listening : Grpc Bytes (List Bytes)
listening = record {
  dial = λ addr w. (none, w);
  version = λ c deadline r w. (none, w);
  get_blocks = λ c deadline h w. (none, w);
  get_data = λ c deadline h w. (none, w);
  get_addresses = λ c deadline w. (none, w);
  send_addresses = λ c deadline addrs w. (none, w);
  forward_transaction = λ c deadline t w. (none, w);
  forward_block = λ c deadline b w. (none, w);
  close = λ c w. (false, w);
  listen = λ addr w. if is_bound addr w then (none, w) else (some addr, addr ∷ w);
  stop = λ c w. unbind c w;
  graceful_stop = λ c w. unbind c w;
}

-- A node with a wallet and no miner, which was not started, on the host `h`.
abbrev purse : Wallet
purse = record {
  conf = WalletConfig.default_config;
  id = alice;
  lmnl_txs = record { tx_q = []; tx_rply_thresh = 3 };
  addr = [];
}

abbrev offline : Online Bytes
offline = record {
  node = record peerless { conf = Config.no_mnr_config 80; wallet = some purse };
  server = none;
}

abbrev here : Bytes
here = codes "h:80"

abbrev online : Online Bytes
online = record {
  node = record offline.node {
    addr = here;
    chain = Blockchain.set_addr here peerless.chain;
    wallet = some (Wallet.set_addr here purse);
    peer_db = PeerDb.set_addr here peerless.peer_db;
  };
  server = some here;
}
