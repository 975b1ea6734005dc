-- ===== src/Node/Lifecycle/Restart.antt =====
-- Starting a node, and pausing and resuming its network.
use csci1951l_cryptocurrency.Prelude.{none, some, ◌≡◌}
use csci1951l_cryptocurrency.Prelude.Result.{ok, panic}
use csci1951l_cryptocurrency.Text.{Bytes}
use csci1951l_cryptocurrency.Utils.Logging.{fmt_addr}
use csci1951l_cryptocurrency.Crypto.{Crypto}
use csci1951l_cryptocurrency.Net.Client.{Grpc}
use csci1951l_cryptocurrency.Net.PeerDb
use csci1951l_cryptocurrency.Node.{Node}
use csci1951l_cryptocurrency.Node.Lifecycle.{
  Message, from_wallet, from_miner, Online, address_of, event_loop,
}

module _ ⦃crypto : Crypto⦄ where
  module _ {Conn World : Type 0} (grpc : Grpc Conn World) where
    -- What the library answered where a server was started.
    record IsListening (addr : Bytes) (w w' : World) : Type 0 where
      server : Conn
      given : grpc.listen addr w ≡ (some server, w')

    -- A node that was started has told its address to its peers' database.
    record IsStarted (hostname : Bytes) (o : Online Conn) (w : World) (r : Online Conn × World)
        : Type 0 where
      listening : IsListening (address_of hostname o.node) w r.1
      serves : r.0.server ≡ some listening.server
      same_conf : r.0.node.conf ≡ o.node.conf
      named : r.0.node.addr ≡ address_of hostname o.node
      told : r.0.node.peer_db.own_addr ≡ address_of hostname o.node
      text : Bytes
      printed : fmt_addr (address_of hostname o.node) ≡ ok text

  module _ {Conn World : Type 0} (grpc : Grpc Conn World) where
    -- What the library documents of addresses, where no other process listens at them: none is
    -- listened at twice, and one where a server listened is free when that server was stopped.
    pub record IsExclusive : Type 0 where
      pub taken :
          (addr : Bytes) (s : Conn) (w w' : World)
          → grpc.listen addr w ≡ (some s, w')
          → (grpc.listen addr w').0 ≡ none
      pub freed :
          (addr : Bytes) (s : Conn) (w w' : World)
          → grpc.listen addr w ≡ (some s, w')
          → (s' : Conn) × ((grpc.listen addr (grpc.stop s w')).0 ≡ some s')

  -- A node without a wallet ends its goroutine in a panic at its first message, whichever it is.
  event_loop_walletless : (msg : Message) (n : Node) → n.wallet ≡ none → event_loop msg n ≡ panic
  unfolding event_loop
  event_loop_walletless (from_wallet t) n missing = rw missing
  event_loop_walletless (from_miner b) n missing = rw missing
