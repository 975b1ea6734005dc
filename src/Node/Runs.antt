-- ===== src/Node/Runs.antt =====
-- The runs of a node: its handlers (BrunoCoin/pkg/server.go, node.go), and the goroutines that they
-- start, each as one step, in any order. What a goroutine or a channel still holds is a list.
pub mod Soundness
pub mod Progress
pub mod Tests
use csci1951l_cryptocurrency.Prelude.{
  ℕ, List, [], ◌∷◌, ◌++◌, Bool, true, false, Option, none, some, ◌≡◌, if◌then◌else◌,
}
use csci1951l_cryptocurrency.Prelude.Result.{Result, ok, ◌>>=◌, deref}
use csci1951l_cryptocurrency.Text.{Bytes}
use csci1951l_cryptocurrency.Utils.Logging.{fmt_addr}
use csci1951l_cryptocurrency.Crypto.{Crypto}
use csci1951l_cryptocurrency.Crypto.Id.{SimpleId}
use csci1951l_cryptocurrency.Proto
use csci1951l_cryptocurrency.Proto.{VersionRequest}
use csci1951l_cryptocurrency.Tx.{Transaction}
use csci1951l_cryptocurrency.Block.{Block}
use csci1951l_cryptocurrency.Miner
use csci1951l_cryptocurrency.Miner.{Sent, pool_updated, send_blk}
use csci1951l_cryptocurrency.Wallet
use csci1951l_cryptocurrency.Net.Address
use csci1951l_cryptocurrency.Net.Address.{Memory, ProtoAddress}
use csci1951l_cryptocurrency.Net.Client
use csci1951l_cryptocurrency.Net.Client.{Grpc}
use csci1951l_cryptocurrency.Node.{
  Node, Outcome, Started, wallet_hndl_tx_req, wallet_hndl_blk, mnr_hndl_tx, mnr_hndl_blk,
  forward_transaction_rpc, forward_block_rpc, version_rpc, answer_rpc, send_addresses_rpc,
}
use csci1951l_cryptocurrency.Node.Config.{Config}
use csci1951l_cryptocurrency.Node.Handlers.{
  version, send_addresses, forward_transaction, forward_block,
}
use csci1951l_cryptocurrency.Node.Lifecycle.{
  Online, Message, from_wallet, from_miner, start, event_loop,
}
use csci1951l_cryptocurrency.Node.Local.{
  new, send_tx, connect_to_peer, broadcast_addr, bootstrap, start_miner,
}

-- The blocks among what a miner sent; an update of its pool wakes its own goroutine.
blocks_of : List Sent → List Block
blocks_of [] = []
blocks_of (pool_updated ∷ sent) = blocks_of sent
blocks_of (send_blk b ∷ sent) = b ∷ blocks_of sent

module _ ⦃crypto : Crypto⦄ where
  -- A node, its goroutines that have not run yet, and what waits in the channels of its wallet and
  -- its miner.
  pub record System : Type 0 where
    pub node : Node
    pub calls : List Started
    pub txs : List Transaction
    pub blocks : List Block

  -- A node that does nothing yet.
  abbrev pub idle : Node → System
  idle n = record { node = n; calls = []; txs = []; blocks = [] }

  -- A handler ended.
  abbrev pub after : Outcome → System → System
  after o s = record s { node = o.node; calls = s.calls ++ o.started }

  -- A request that got no answer is printed with both addresses.
  no_response : Bytes → System → Result System
  no_response to s = do from ← fmt_addr s.node.addr; text ← fmt_addr to; ok s

  after_call : {R : Type 0} → Option R → Bytes → System → Result System
  after_call reply to s = elim reply [ none ↦ no_response to s | some _ ↦ ok s ]

  -- A request for a connection with an address object: one that the node's memory has, whose field is
  -- set, or one that nothing else refers to.
  asked_at :
      {Conn World : Type 0}
      → Grpc Conn World
      → World
      → ℕ
      → Option ℕ
      → Bytes
      → VersionRequest
      → Memory
      → Option Proto.Empty × Memory
  asked_at grpc w now (some r) addr req m =
      let ((reply, after), m') = Client.version_rpc grpc now now req r m w in (reply, m')
  asked_at grpc w now none addr req m =
      let own : Memory = record { at = λ r. Address.new addr 0; next = 1 } in
      ((Client.version_rpc grpc now now req 0 own w).0.0, m)

  -- A goroutine or the request of `Version`. `to` is the address that is printed: a loop's goroutines
  -- share its variable. What the signatures draw, the time, the library and its state are arguments.
  unfoldable pub perform :
      {Conn World : Type 0}
      → Grpc Conn World
      → World
      → (ℕ → Bytes)
      → ℕ
      → Bytes
      → Started
      → System
      → Result System
  unfolding after_call no_response blocks_of asked_at
  perform grpc w rng now to (wallet_hndl_tx_req req) s = do
    wt ← deref s.node.wallet
    paid ← Wallet.hndl_tx_req rng req wt s.node.chain
    ok (record s {
      node = record s.node { wallet = some paid.0; chain = paid.1 };
      txs = s.txs ++ paid.2;
    })
  perform grpc w rng now to (wallet_hndl_blk b) s = do
    wt ← deref s.node.wallet
    let (wt', sent) = Wallet.hndl_blk (some b) wt
    ok (record s { node = record s.node { wallet = some wt' }; txs = s.txs ++ sent })
  perform grpc w rng now to (mnr_hndl_tx t) s = do
    m ← deref s.node.mnr
    ok (record s { node = record s.node { mnr = some (Miner.hndl_tx (some t) m).0 } })
  perform grpc w rng now to (mnr_hndl_blk b) s = do
    m ← deref s.node.mnr
    ok (record s { node = record s.node { mnr = some (Miner.hndl_blk (some b) m).0 } })
  perform grpc w rng now to (forward_transaction_rpc p t) s =
      after_call (Client.forward_transaction_rpc grpc now t (s.node.memory.at p.addr) w).0 to s
  perform grpc w rng now to (forward_block_rpc p b) s =
      after_call (Client.forward_block_rpc grpc now b (s.node.memory.at p.addr) w).0 to s
  perform grpc w rng now to (version_rpc object addr req) s =
      let (reply, memory) = asked_at grpc w now object addr req s.node.memory in
      after_call reply to (record s { node = record s.node { memory = memory } })
  perform grpc w rng now to (answer_rpc object addr req) s =
      let (reply, memory) = asked_at grpc w now object addr req s.node.memory in
      ok (record s { node = record s.node { memory = memory } })
  perform grpc w rng now to (send_addresses_rpc p addrs) s =
      after_call (Client.send_addresses_rpc grpc now addrs (s.node.memory.at p.addr) w).0 to s

  -- A round of the miner, whose search for a nonce is interrupted as `done` says.
  unfoldable pub mine : (ℕ → Bool) → System → Result System
  unfolding blocks_of
  mine done s = do
    m ← deref s.node.mnr
    mined ← Miner.mine done m
    ok (record s {
      node = record s.node { mnr = some mined.0 };
      blocks = s.blocks ++ blocks_of mined.1;
    })

  -- What a request of another node or of the user does to the node, where it does not panic. The
  -- requests that only read are left out.
  pub data Handled (n : Node) : Outcome → Type 0 where
    by_version : (req : VersionRequest) (now : ℕ) → Handled n (version req now n)
    by_send_addresses :
        (shuffle : List Bytes → List Bytes) (addrs : List ProtoAddress) (o : Outcome)
        → send_addresses shuffle addrs n ≡ ok o
        → Handled n o
    by_forward_transaction :
        (inp : Proto.Transaction) (o : Outcome) → forward_transaction inp n ≡ ok o → Handled n o
    by_forward_block : (inp : Proto.Block) (o : Outcome) → forward_block inp n ≡ ok o → Handled n o
    by_send_tx : (amt fee : ℕ) (pub_k : Option Bytes) → Handled n (send_tx amt fee pub_k n)
    by_connect_to_peer : (addr : Bytes) → Handled n (connect_to_peer addr n)
    by_broadcast_addr : (now : ℕ) → Handled n (broadcast_addr now n)
    by_bootstrap :
        (answers : List (Option (List Bytes))) (fetch : Bytes → Option (Option Proto.Block))
        (o : Outcome)
        → bootstrap answers fetch n ≡ ok o
        → Handled n o

  module _ {Conn World : Type 0} (grpc : Grpc Conn World) where
    -- One step of the node: its start, a handler, a message of the wallet or the miner, a goroutine, or a round
    -- of the miner.
    pub data Step (s : System) : System → Type 0 where
      handles : (o : Outcome) → Handled s.node o → Step s (after o s)
      reads_tx :
          (t : Transaction) (txs : List Transaction) (o : Outcome)
          → s.txs ≡ t ∷ txs
          → event_loop (from_wallet t) s.node ≡ ok (some o)
          → Step s (after o (record s { txs = txs }))
      reads_blk :
          (b : Block) (blocks : List Block) (o : Outcome)
          → s.blocks ≡ b ∷ blocks
          → event_loop (from_miner b) s.node ≡ ok (some o)
          → Step s (after o (record s { blocks = blocks }))
      runs :
          (w : World) (rng : ℕ → Bytes) (now : ℕ) (to : Bytes) (c : Started)
          (before behind : List Started) (s' : System)
          → s.calls ≡ before ++ c ∷ behind
          → perform grpc w rng now to c (record s { calls = before ++ behind }) ≡ ok s'
          → Step s s'
      starts_miner :
          (n : Node) (sent : List Sent)
          → start_miner s.node ≡ ok (n, sent)
          → Step s (record s { node = n })
      begins :
          (hostname : Option Bytes) (w w' : World) (o : Online Conn)
          → start grpc hostname (record { node = s.node; server = none }) w ≡ ok (o, w')
          → Step s (record s { node = o.node })
      mines : (done : ℕ → Bool) (s' : System) → mine done s ≡ ok s' → Step s s'

    -- What a node can come to, from a state on.
    pub data Reaches (s : System) : System → Type 0 where
      stays : Reaches s s
      steps : (s' s'' : System) → Reaches s s' → Step s' s'' → Reaches s s''
