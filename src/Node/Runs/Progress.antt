-- ===== src/Node/Runs/Progress.antt =====
-- What a valid transaction message leads to.
use csci1951l_cryptocurrency.Prelude.{
  List, [], ◌∷◌, ◌++◌, map, true, false, some, ◌≡◌, refl, ap, ◌∙◌,
}
use csci1951l_cryptocurrency.Prelude.Result.{ok}
use csci1951l_cryptocurrency.Text.{Bytes}
use csci1951l_cryptocurrency.Utils.Logging.{fmt_addr}
use csci1951l_cryptocurrency.Crypto.{Crypto, IsSum256}
use csci1951l_cryptocurrency.Proto
use csci1951l_cryptocurrency.Tx
use csci1951l_cryptocurrency.Tx.{Transaction}
use csci1951l_cryptocurrency.Tx.NameTag.{name_tag_returns}
use csci1951l_cryptocurrency.Miner
use csci1951l_cryptocurrency.Miner.{Miner}
use csci1951l_cryptocurrency.Miner.TxPool.Pooled.{HasRoom, IsPooled, hndl_tx-IsPooled}
use csci1951l_cryptocurrency.Net.Client.{Grpc}
use csci1951l_cryptocurrency.Net.PeerDb
use csci1951l_cryptocurrency.Node.{Node, Started, mnr_hndl_tx, forward_transaction_rpc}
use csci1951l_cryptocurrency.Node.Handlers.{seen, forward_transaction, accept_tx}
use csci1951l_cryptocurrency.Node.Validation.{chk_tx}
use csci1951l_cryptocurrency.Node.Runs.{
  System, after, perform, by_forward_transaction, handles, runs, Reaches, stays, steps,
}

module _ ⦃crypto : Crypto⦄ where
  accepted_fresh :
      (inp : Proto.Transaction) (n : Node) (text : Bytes)
      → IsSum256
      → fmt_addr n.addr ≡ ok text
      → chk_tx (some (Tx.deserialize inp)) n ≡ ok true
      → seen (Tx.hash (Tx.deserialize inp)) n.tx_map ≡ false
      → forward_transaction inp n ≡ ok (accept_tx (Tx.deserialize inp) n)
  unfolding forward_transaction
  accepted_fresh inp n text law own valid fresh =
      let (tag, named) = name_tag_returns law (Tx.deserialize inp) in rw (fresh, valid, own, named)

  -- The requests that pass a transaction on, one to each peer.
  abbrev pub relays : Transaction → Node → List Started
  relays t n = map (λ p. forward_transaction_rpc p (Tx.serialize t)) (PeerDb.list n.peer_db)

  -- What an accepted transaction starts on a node with a miner.
  started-accept_tx :
      (t : Transaction) (n : Node)
      → n.conf.mnr_conf.has_mnr ≡ true
      → (accept_tx t n).started ≡ mnr_hndl_tx t ∷ relays t n
  unfolding accept_tx
  started-accept_tx t n mining = rw mining

  accept_tx-mnr : (t : Transaction) (n : Node) → (accept_tx t n).node.mnr ≡ n.mnr
  unfolding accept_tx
  accept_tx-mnr t n = refl

  -- The system after its miner took the transaction.
  with_pooled : Transaction → Miner → System → System
  with_pooled t m s = record s { node = record s.node { mnr = some (Miner.hndl_tx (some t) m).0 } }

  module _ {Conn World : Type 0} (grpc : Grpc Conn World) where
    perform-mnr_hndl_tx :
        (w : World) (t : Transaction) (m : Miner) (s : System)
        → s.node.mnr ≡ some m
        → perform grpc w (λ i. []) 0 [] (mnr_hndl_tx t) s ≡ ok (with_pooled t m s)
    unfolding perform with_pooled
    perform-mnr_hndl_tx w t m s has_mnr = rw has_mnr

    -- From any state of a node that has a miner whose pool has room, and an address that has a text
    -- in the messages, a transaction message that is valid and new leads to a state in which the
    -- miner's pool has the transaction, and the goroutines that wait are those that waited and a
    -- request to each peer that passes it on.
    pub forward_transaction-IsPooled :
        (w : World) (inp : Proto.Transaction) (s : System) (m : Miner) (text : Bytes)
        → IsSum256
        → fmt_addr s.node.addr ≡ ok text
        → chk_tx (some (Tx.deserialize inp)) s.node ≡ ok true
        → seen (Tx.hash (Tx.deserialize inp)) s.node.tx_map ≡ false
        → s.node.conf.mnr_conf.has_mnr ≡ true
        → s.node.mnr ≡ some m
        → HasRoom m.tx_p
        → (s' : System) × (m' : Miner) × Reaches grpc s s'
          × (s'.node.mnr ≡ some m')
          × IsPooled (Tx.deserialize inp) m'.tx_p
          × (s'.calls ≡ s.calls ++ relays (Tx.deserialize inp) s.node)
    unfolding with_pooled
    forward_transaction-IsPooled w inp s m text law own valid fresh mining has_mnr room =
        let t = Tx.deserialize inp in
        let o = accept_tx t s.node in
        let waits = relays t s.node in
        let heard : System = record (after o s) { calls = s.calls ++ waits } in
        let calls : s.calls ++ o.started ≡ s.calls ++ mnr_hndl_tx t ∷ waits =
          ap (λ c. s.calls ++ c) (started-accept_tx t s.node mining) in
        (
          with_pooled t m heard,
          (Miner.hndl_tx (some t) m).0,
          steps (after o s) (with_pooled t m heard)
              (steps s (after o s) stays (
                handles o (
                  by_forward_transaction inp o
                    (accepted_fresh inp s.node text law own valid fresh))))
              (runs w (λ i. []) 0 [] (mnr_hndl_tx t) s.calls waits (with_pooled t m heard) calls
                (perform-mnr_hndl_tx w t m heard (accept_tx-mnr t s.node ∙ has_mnr))),
          refl,
          hndl_tx-IsPooled t m room,
          refl,
        )
