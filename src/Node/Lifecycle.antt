-- ===== src/Node/Lifecycle.antt =====
-- BrunoCoin/pkg/node.go: how a node starts, listens and stops. What the operating system answers for
-- the host name is an argument, and what listens and serves is the library, a parameter.
pub mod Restart
pub mod Soundness
pub mod Tests
use csci1951l_cryptocurrency.Prelude.{
  List, [], ◌∷◌, ◌++◌, Bool, true, false, not, ◌||◌, Option, none, some, if◌then◌else◌,
}
use csci1951l_cryptocurrency.Prelude.Result.{Result, ok, panic, ◌>>=◌, deref}
use csci1951l_cryptocurrency.Text.{Bytes}
use csci1951l_cryptocurrency.Text.Decimal.{format}
use csci1951l_cryptocurrency.Text.Equality.{beq}
use csci1951l_cryptocurrency.Utils.Logging.{fmt_addr}
use csci1951l_cryptocurrency.Crypto.{Crypto}
use csci1951l_cryptocurrency.Tx.{Transaction}
use csci1951l_cryptocurrency.Block.{Block}
use csci1951l_cryptocurrency.Blockchain
use csci1951l_cryptocurrency.Miner
use csci1951l_cryptocurrency.Wallet
use csci1951l_cryptocurrency.Net.Client.{Grpc}
use csci1951l_cryptocurrency.Net.PeerDb
use csci1951l_cryptocurrency.Node.{Node, Outcome}
use csci1951l_cryptocurrency.Node.Local.{hndl_wt_tx, hndl_mnr_blk}

-- A message on the channels of the wallet and the miner.
pub data Message : Type 0 where
  from_wallet : Transaction → Message
  from_miner : Block → Message

module _ ⦃crypto : Crypto⦄ where
  -- The node and its field `Server`, which is nil before the start.
  pub record Online (Conn : Type 0) : Type 0 where
    pub node : Node
    pub server : Option Conn

  -- The address is the host name and the port of the configuration.
  unfoldable pub address_of : Bytes → Node → Bytes
  address_of hostname n = hostname ++ b':' ∷ format n.conf.port

  -- The library listens at the address, serves there, or gives an error.
  unfoldable pub start_server :
      {Conn World : Type 0}
      → Grpc Conn World
      → Bytes
      → Online Conn
      → World
      → Result (Online Conn × World)
  start_server grpc addr o w =
      let (server, w') = grpc.listen addr w in
      elim server [ none ↦ panic | some s ↦ ok (record o { server = some s }, w') ]

  -- The address is set in the parts that the node has; a part that is nil is read through.
  set_mnr_addr : Bytes → Node → Result Node
  set_mnr_addr addr n =
      let set_it = (do m ← deref n.mnr; ok (record n { mnr = some (Miner.set_addr addr m) })) in
      if n.conf.mnr_conf.has_mnr then set_it else ok n

  set_chain_addr : Bytes → Node → Node
  set_chain_addr addr n =
      if n.conf.chain_conf.has_chn then record n { chain = Blockchain.set_addr addr n.chain } else n

  set_wallet_addr : Bytes → Node → Result Node
  set_wallet_addr addr n =
      let set_it = (do
        w ← deref n.wallet
        ok (record n { wallet = some (Wallet.set_addr addr w) })) in
      if n.conf.wt_conf.has_wt then set_it else ok n

  -- `Start` up to its goroutine. `none` for the host name is an error. The address is printed.
  unfoldable pub start :
      {Conn World : Type 0}
      → Grpc Conn World
      → Option Bytes
      → Online Conn
      → World
      → Result (Online Conn × World)
  unfolding set_mnr_addr set_chain_addr set_wallet_addr
  start grpc none o w = panic
  start grpc (some hostname) o w = do
    let addr = address_of hostname o.node
    let named = record o.node { addr = addr; peer_db = PeerDb.set_addr addr o.node.peer_db }
    text ← fmt_addr addr
    n ← set_mnr_addr addr named
    n' ← set_wallet_addr addr (set_chain_addr addr n)
    start_server grpc addr (record o { node = n' }) w

  -- A round of the goroutine of `Start`, which reads the channels through the wallet and, if the
  -- configuration has one, the miner. `none` is a message that is not received.
  unfoldable pub event_loop : Message → Node → Result (Option Outcome)
  event_loop (from_wallet t) n =
      let handled = (do o ← hndl_wt_tx t n; ok (some o)) in
      let with_miner = (do m ← deref n.mnr; handled) in
      do w ← deref n.wallet; if n.conf.mnr_conf.has_mnr then with_miner else handled
  event_loop (from_miner b) n =
      let with_miner = (do m ← deref n.mnr; o ← hndl_mnr_blk b n; ok (some o)) in
      do w ← deref n.wallet; if n.conf.mnr_conf.has_mnr then with_miner else ok none

  -- Stopping reads through the server. The address is printed.
  unfoldable pub pause_network :
      {Conn World : Type 0} → Grpc Conn World → Online Conn → World → Result (Online Conn × World)
  pause_network grpc o w = do
    server ← deref o.server
    text ← fmt_addr o.node.addr
    ok (o, grpc.stop server w)

  unfoldable pub resume_network :
      {Conn World : Type 0}
      → Grpc Conn World
      → Option Bytes
      → Online Conn
      → World
      → Result (Online Conn × World)
  resume_network grpc none o w = panic
  resume_network grpc (some hostname) o w = do
    resumed ← start_server grpc (address_of hostname o.node) o w
    text ← fmt_addr o.node.addr
    ok resumed

  unfoldable pub kill :
      {Conn World : Type 0} → Grpc Conn World → Online Conn → World → Result (Online Conn × World)
  kill grpc o w = do server ← deref o.server; ok (o, grpc.graceful_stop server w)
