-- ===== src/Node/Lifecycle/Soundness.antt =====
-- `Start` leaves the node sound.
use csci1951l_cryptocurrency.Prelude.{
  Bool, Option, none, some, ◌≡◌, sym, subst, if-cases, inl, inr, if◌then◌else◌, Bool-cases,
  Option-cases, ap, arith,
}
use csci1951l_cryptocurrency.Prelude.Result.{ok, deref, deref-eq-ok, >>=-eq-ok, ok-injective}
use csci1951l_cryptocurrency.Text.{Bytes}
use csci1951l_cryptocurrency.Utils.Logging.{fmt_addr}
use csci1951l_cryptocurrency.Crypto.{Crypto}
use csci1951l_cryptocurrency.Blockchain
use csci1951l_cryptocurrency.Miner
use csci1951l_cryptocurrency.Miner.Soundness.{IsPoolSound}
use csci1951l_cryptocurrency.Net.Client.{Grpc}
use csci1951l_cryptocurrency.Net.PeerDb
use csci1951l_cryptocurrency.Node.{Node}
use csci1951l_cryptocurrency.Node.Soundness.{IsSound}
use csci1951l_cryptocurrency.Node.Lifecycle.{
  Online, address_of, start_server, set_mnr_addr, set_chain_addr, set_wallet_addr, start,
}

module _ ⦃crypto : Crypto⦄ where
  set_mnr_addr-IsSound :
      (addr : Bytes) (n n' : Node) → set_mnr_addr addr n ≡ ok n' → IsSound n → IsSound n'
  unfolding set_mnr_addr Miner.set_addr
  set_mnr_addr-IsSound addr n n' e v = elim (if-cases n.conf.mnr_conf.has_mnr _ _ e) [
    | inl has ↦
        let (m, there, e') = >>=-eq-ok (deref n.mnr) _ has in
        subst IsSound (ok-injective e') (record {
          chain = v.chain;
          addresses = v.addresses;
          peers = v.peers;
          pool = subst IsPoolSound (deref-eq-ok _ there) v.pool;
        })
    | inr without ↦ subst IsSound (ok-injective without) v
  ]

  set_chain_addr-IsSound : (addr : Bytes) (n : Node) → IsSound n → IsSound (set_chain_addr addr n)
  unfolding set_chain_addr Blockchain.set_addr
  set_chain_addr-IsSound addr n v =
      let named = record n { chain = Blockchain.set_addr addr n.chain } in
      let chosen : Bool → Node = λ has. if has then named else n in
      elim (Bool-cases n.conf.chain_conf.has_chn) [
        | inl has ↦
            let tree = v.chain.tree in
            subst (λ c. IsSound (chosen c)) (sym has)
              (record {
                chain = record {
                  tree = record {
                    entry = tree.entry;
                    last_chain = tree.last_chain;
                    last_known = tree.last_known;
                  };
                  canonical = v.chain.canonical;
                };
                addresses = v.addresses;
                peers = v.peers;
                pool = v.pool;
              })
        | inr without ↦ subst (λ c. IsSound (chosen c)) (sym without) v
      ]

  set_wallet_addr-IsSound :
      (addr : Bytes) (n n' : Node) → set_wallet_addr addr n ≡ ok n' → IsSound n → IsSound n'
  unfolding set_wallet_addr
  set_wallet_addr-IsSound addr n n' e v = elim (if-cases n.conf.wt_conf.has_wt _ _ e) [
    | inl has ↦
        let (w, there, e') = >>=-eq-ok (deref n.wallet) _ has in
        subst IsSound (ok-injective e')
          (record { chain = v.chain; addresses = v.addresses; peers = v.peers; pool = v.pool })
    | inr without ↦ subst IsSound (ok-injective without) v
  ]

  module _ {Conn World : Type 0} (grpc : Grpc Conn World) where
    start_server-node :
        (addr : Bytes) (o : Online Conn) (w : World) (r : Online Conn × World)
        → start_server grpc addr o w ≡ ok r
        → o.node ≡ r.0.node
    unfolding start_server
    start_server-node addr o w r e = elim (Option-cases (grpc.listen addr w).0) [
      | inl failed ↦ absurd (ground (arith, rw (start_server, failed) at e))
      | inr (s, given) ↦
          ap (λ (q : Online Conn × World). q.0.node) (ok-injective (rw (start_server, given) at e))
    ]

    -- `Start`, where it does not panic.
    pub start-IsSound :
        (hostname : Option Bytes) (o : Online Conn) (w : World) (r : Online Conn × World)
        → start grpc hostname o w ≡ ok r
        → IsSound o.node
        → IsSound r.0.node
    unfolding start PeerDb.set_addr
    start-IsSound none o w r e v = absurd (ground (arith, e))
    start-IsSound (some hostname) o w r e v =
        let addr = address_of hostname o.node in
        let (text, printed, e1) = >>=-eq-ok (fmt_addr addr) _ e in
        let (n, with_mnr, e2) = >>=-eq-ok (set_mnr_addr addr _) _ e1 in
        let (n', with_wallet, e3) = >>=-eq-ok (set_wallet_addr addr (set_chain_addr addr n)) _ e2 in
        let named : IsSound
            (record o.node { addr = addr; peer_db = PeerDb.set_addr addr o.node.peer_db }) =
          record { chain = v.chain; addresses = v.addresses; peers = v.peers; pool = v.pool } in
        subst IsSound (start_server-node addr (record o { node = n' }) w r e3) (
          set_wallet_addr-IsSound addr _ n' with_wallet
            (set_chain_addr-IsSound addr n (set_mnr_addr-IsSound addr _ n with_mnr named)))
