-- ===== src/Node/Runs/Soundness.antt =====
-- In every run the node stays sound.
use csci1951l_cryptocurrency.Prelude.{
  ℕ, ◌<◌, List, Option, none, some, ◌≡◌, sym, subst, if-cases, inl, inr,
}
use mathlib.Core.Option.{some-injective, some-ne-none}
use csci1951l_cryptocurrency.Prelude.Word.{u32_mod}
use csci1951l_cryptocurrency.Prelude.Result.{ok, deref, deref-eq-ok, >>=-eq-ok, ok-injective}
use csci1951l_cryptocurrency.Text.{Bytes}
use csci1951l_cryptocurrency.Utils.Logging.{fmt_addr}
use csci1951l_cryptocurrency.Crypto.{Crypto}
use csci1951l_cryptocurrency.Crypto.Id.{SimpleId}
use csci1951l_cryptocurrency.Tx.{Transaction}
use csci1951l_cryptocurrency.Blockchain.{Blockchain}
use csci1951l_cryptocurrency.Blockchain.Funds.Kept.{get_utxo_for_amt-kept}
use csci1951l_cryptocurrency.Miner
use csci1951l_cryptocurrency.Miner.{Miner, Sent}
use csci1951l_cryptocurrency.Miner.Soundness.{
  IsPoolSound, hndl_tx-IsSoundPool, hndl_blk-IsSoundPool, mine-IsSoundPool,
}
use csci1951l_cryptocurrency.Wallet
use csci1951l_cryptocurrency.Wallet.{Wallet, TxReq}
use csci1951l_cryptocurrency.Wallet.Requests.{hndl_tx_req-chain}
use csci1951l_cryptocurrency.Net.Address.{Memory}
use csci1951l_cryptocurrency.Net.Client.{Grpc}
use csci1951l_cryptocurrency.Node.{
  Node, Outcome, Started, wallet_hndl_tx_req, wallet_hndl_blk, mnr_hndl_tx, mnr_hndl_blk,
  forward_transaction_rpc, forward_block_rpc, version_rpc, answer_rpc, send_addresses_rpc,
}
use csci1951l_cryptocurrency.Node.Config.{Config}
use csci1951l_cryptocurrency.Node.Soundness.{IsSound, IsSoundChain}
use csci1951l_cryptocurrency.Node.Handlers.Soundness.{
  version-IsSound, send_addresses-IsSound, forward_transaction-IsSound, forward_block-IsSound,
}
use csci1951l_cryptocurrency.Node.Lifecycle.{Message, from_wallet, from_miner, event_loop}
use csci1951l_cryptocurrency.Node.Lifecycle.Soundness.{start-IsSound}
use csci1951l_cryptocurrency.Node.Local.{new, hndl_wt_tx, hndl_mnr_blk}
use csci1951l_cryptocurrency.Node.Local.Soundness.{
  new-IsSound, connect_to_peer-IsSound, broadcast_addr-IsSound, send_tx-IsSound, hndl_wt_tx-IsSound,
  hndl_mnr_blk-IsSound, bootstrap-IsSound, start_miner-IsSound,
}
use csci1951l_cryptocurrency.Node.Runs.{
  System, idle, no_response, after_call, asked_at, perform, mine, Handled, by_version,
  by_send_addresses, by_forward_transaction, by_forward_block, by_send_tx, by_connect_to_peer,
  by_broadcast_addr, by_bootstrap, Step, handles, reads_tx, reads_blk, runs, starts_miner, begins,
  mines, Reaches, stays, steps,
}

module _ ⦃crypto : Crypto⦄ where
  -- A call of another node changes nothing of the caller.
  after_call-same :
      {R : Type 0}
      → (reply : Option R) (to : Bytes) (s s' : System) → after_call reply to s ≡ ok s'
      → s ≡ s'
  unfolding after_call no_response
  after_call-same none to s s' e =
      let (from, own, e') = >>=-eq-ok (fmt_addr s.node.addr) _ e in
      let (text, other, e'') = >>=-eq-ok (fmt_addr to) _ e' in ok-injective e''
  after_call-same (some reply) to s s' e = ok-injective e

  -- Other objects in memory.
  remembered : (n : Node) (m : Memory) → IsSound n → IsSound (record n { memory = m })
  remembered n m v = record {
    chain = v.chain;
    addresses = v.addresses;
    peers = v.peers;
    pool = v.pool;
  }

  -- A request of the user, met or not.
  paid-IsSound :
      (rng : ℕ → Bytes) (req : TxReq) (w : Wallet) (n : Node)
      (paid : Wallet × Blockchain × List Transaction)
      → Wallet.hndl_tx_req rng req w n.chain ≡ ok paid
      → IsSound n
      → IsSound (record n { wallet = some paid.0; chain = paid.1 })
  paid-IsSound rng req w n paid e s =
      let kept : IsSoundChain paid.1 = elim (hndl_tx_req-chain rng req w n.chain paid e) [
        | inl same ↦ subst IsSoundChain same s.chain
        | inr (found, asked) ↦
            let (tree, canonical) =
              get_utxo_for_amt-kept _ _ n.chain paid.1 found asked s.chain.tree s.chain.canonical in
            record { tree = tree; canonical = canonical }
      ] in
      record { chain = kept; addresses = s.addresses; peers = s.peers; pool = s.pool }

  with_miner :
      (n : Node) (m : Miner)
      → IsSound n
      → IsPoolSound (some m)
      → IsSound (record n { mnr = some m })
  with_miner n m s c = record {
    chain = s.chain;
    addresses = s.addresses;
    peers = s.peers;
    pool = c;
  }

  abbrev HasSoundNode : System → Type 0
  HasSoundNode s = IsSound s.node

  perform-IsSound :
      {Conn World : Type 0}
      → (grpc : Grpc Conn World) (wd : World) (rng : ℕ → Bytes) (now : ℕ) (to : Bytes) (c : Started)
        (s s' : System)
      → perform grpc wd rng now to c s ≡ ok s'
      → HasSoundNode s
      → HasSoundNode s'
  unfolding perform asked_at
  perform-IsSound grpc wd rng now to (wallet_hndl_tx_req req) s s' e v =
      let (w, has, e') = >>=-eq-ok (deref s.node.wallet) _ e in
      let (paid, done, e'') = >>=-eq-ok (Wallet.hndl_tx_req rng req w s.node.chain) _ e' in
      subst HasSoundNode (ok-injective e'') (paid-IsSound rng req w s.node paid done v)
  perform-IsSound grpc wd rng now to (wallet_hndl_blk b) s s' e v =
      let (w, has, e') = >>=-eq-ok (deref s.node.wallet) _ e in
      subst HasSoundNode (ok-injective e')
        (record { chain = v.chain; addresses = v.addresses; peers = v.peers; pool = v.pool })
  perform-IsSound grpc wd rng now to (mnr_hndl_tx t) s s' e v =
      let (m, has, e') = >>=-eq-ok (deref s.node.mnr) _ e in
      let sound = subst IsPoolSound (deref-eq-ok _ has) v.pool in
      subst HasSoundNode (ok-injective e')
        (with_miner s.node (Miner.hndl_tx (some t) m).0 v (hndl_tx-IsSoundPool (some t) m sound))
  perform-IsSound grpc wd rng now to (mnr_hndl_blk b) s s' e v =
      let (m, has, e') = >>=-eq-ok (deref s.node.mnr) _ e in
      let sound = subst IsPoolSound (deref-eq-ok _ has) v.pool in
      subst HasSoundNode (ok-injective e')
        (with_miner s.node (Miner.hndl_blk (some b) m).0 v (hndl_blk-IsSoundPool (some b) m sound))
  perform-IsSound grpc wd rng now to (forward_transaction_rpc p t) s s' e v =
      subst HasSoundNode (after_call-same _ to s s' e) v
  perform-IsSound grpc wd rng now to (forward_block_rpc p b) s s' e v =
      subst HasSoundNode (after_call-same _ to s s' e) v
  perform-IsSound grpc wd rng now to (version_rpc object addr req) s s' e v =
      let (reply, m) = asked_at grpc wd now object addr req s.node.memory in
      subst HasSoundNode (after_call-same reply to _ s' e) (remembered s.node m v)
  perform-IsSound grpc wd rng now to (answer_rpc object addr req) s s' e v =
      let (reply, m) = asked_at grpc wd now object addr req s.node.memory in
      subst HasSoundNode (ok-injective e) (remembered s.node m v)
  perform-IsSound grpc wd rng now to (send_addresses_rpc p addrs) s s' e v =
      subst HasSoundNode (after_call-same _ to s s' e) v

  Handled-IsSound : (n : Node) (o : Outcome) → Handled n o → IsSound n → IsSound o.node
  Handled-IsSound n _ (by_version req now) s = version-IsSound req now n s
  Handled-IsSound n _ (by_send_addresses shuffle addrs o e) s =
      send_addresses-IsSound shuffle addrs n o e s
  Handled-IsSound n _ (by_forward_transaction inp o e) s = forward_transaction-IsSound inp n o e s
  Handled-IsSound n _ (by_forward_block inp o e) s = forward_block-IsSound inp n o e s
  Handled-IsSound n _ (by_send_tx amt fee pub_k) s = send_tx-IsSound amt fee pub_k n s
  Handled-IsSound n _ (by_connect_to_peer addr) s = connect_to_peer-IsSound addr n s
  Handled-IsSound n _ (by_broadcast_addr now) s = broadcast_addr-IsSound now n s
  Handled-IsSound n _ (by_bootstrap answers fetch o e) s = bootstrap-IsSound answers fetch n o e s

  -- A message of the own wallet or miner.
  event_loop-IsSound :
      (msg : Message) (n : Node) (o : Outcome)
      → event_loop msg n ≡ ok (some o)
      → IsSound n
      → IsSound o.node
  unfolding event_loop
  event_loop-IsSound (from_wallet t) n o e s =
      let (w, has, e') = >>=-eq-ok (deref n.wallet) _ e in
      let heard : Outcome → Type 0 = λ p. IsSound p.node in
      elim (if-cases n.conf.mnr_conf.has_mnr _ _ e') [
        | inl mining ↦
            let (m, has_mnr, e'') = >>=-eq-ok (deref n.mnr) _ mining in
            let (p, done, e3) = >>=-eq-ok (hndl_wt_tx t n) _ e'' in
            subst heard (some-injective _ _ (ok-injective e3)) (hndl_wt_tx-IsSound t n p done s)
        | inr lacking ↦
            let (p, done, e3) = >>=-eq-ok (hndl_wt_tx t n) _ lacking in
            subst heard (some-injective _ _ (ok-injective e3)) (hndl_wt_tx-IsSound t n p done s)
      ]
  event_loop-IsSound (from_miner b) n o e s =
      let (w, has, e') = >>=-eq-ok (deref n.wallet) _ e in
      elim (if-cases n.conf.mnr_conf.has_mnr _ _ e') [
        | inl mining ↦
            let (m, has_mnr, e'') = >>=-eq-ok (deref n.mnr) _ mining in
            let (p, added, e3) = >>=-eq-ok (hndl_mnr_blk b n) _ e'' in
            hndl_mnr_blk-IsSound b n o
              (subst (λ (q : Outcome). hndl_mnr_blk b n ≡ ok q)
                (some-injective _ _ (ok-injective e3)) added)
              s
        | inr lacking ↦ absurd (some-ne-none _ (sym (ok-injective lacking)))
      ]

  module _ {Conn World : Type 0} (grpc : Grpc Conn World) where
    Step-IsSound : (s s' : System) → Step grpc s s' → HasSoundNode s → HasSoundNode s'
    unfolding mine
    Step-IsSound s _ (handles o how) v = Handled-IsSound s.node o how v
    Step-IsSound s _ (reads_tx t txs o waits e) v = event_loop-IsSound (from_wallet t) s.node o e v
    Step-IsSound s _ (reads_blk b blocks o waits e) v =
        event_loop-IsSound (from_miner b) s.node o e v
    Step-IsSound s s' (runs wd rng now to c before behind r waits e) v =
        perform-IsSound grpc wd rng now to c _ s' e v
    Step-IsSound s _ (starts_miner n sent e) v = start_miner-IsSound s.node n sent e v
    Step-IsSound s _ (begins hostname w w' o e) v = start-IsSound grpc hostname _ w (o, w') e v
    Step-IsSound s s' (mines done r e) v =
        let (m, has, e') = >>=-eq-ok (deref s.node.mnr) _ e in
        let (mined, ended, e'') = >>=-eq-ok (Miner.mine done m) _ e' in
        let sound = subst IsPoolSound (deref-eq-ok _ has) v.pool in
        subst HasSoundNode (ok-injective e'')
          (with_miner s.node mined.0 v (mine-IsSoundPool done m mined.0 mined.1 ended sound))

    Reaches-IsSound : (s s' : System) → Reaches grpc s s' → HasSoundNode s → HasSoundNode s'
    Reaches-IsSound s _ stays v = v
    Reaches-IsSound s s' (steps mid last before step) v =
        Step-IsSound mid s' step (Reaches-IsSound s mid before v)

    -- A new node has a pool whose capacity is a number of 32 bits. It is started, requests come,
    -- goroutines run, the miner finds blocks and other nodes answer, each as one step that ends before
    -- the next begins and does not panic, in whatever order. Then its chain is always a tree, in every
    -- map of it locators are the keys, each once, and the pool of its miner counts its entries and is
    -- a heap by priority.
    pub new-Reaches-IsSound :
        (conf : Config) (generated : SimpleId) (s : System)
        → conf.mnr_conf.tx_p_cap < u32_mod
        → Reaches grpc (idle (new conf generated)) s
        → IsSoundChain s.node.chain × IsPoolSound s.node.mnr
    new-Reaches-IsSound conf generated s word run =
        let v =
          Reaches-IsSound (idle (new conf generated)) s run (new-IsSound conf generated word) in
        (v.chain, v.pool)
