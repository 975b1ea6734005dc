-- ===== src/Node/Local/Soundness.antt =====
-- What the node does by itself and for its user leaves it sound.
use csci1951l_cryptocurrency.Prelude.{
  ℕ, ◌<◌, List, [], ◌∷◌, Bool, true, false, Option, none, some, ◌≡◌, subst, arith, length,
  Option-cases, List-cases, if◌then◌else◌, inl, inr, leb,
}
use csci1951l_cryptocurrency.Prelude.Word.{u32_mod}
use csci1951l_cryptocurrency.Prelude.Result.{ok, deref, deref-eq-ok, >>=-eq-ok, ok-injective}
use csci1951l_cryptocurrency.Text.{Bytes}
use csci1951l_cryptocurrency.Utils.Logging.{fmt_addr}
use csci1951l_cryptocurrency.Crypto.{Crypto}
use csci1951l_cryptocurrency.Crypto.Id.{SimpleId}
use csci1951l_cryptocurrency.Proto
use csci1951l_cryptocurrency.Tx.{Transaction}
use csci1951l_cryptocurrency.Block
use csci1951l_cryptocurrency.Block.{Block}
use csci1951l_cryptocurrency.Blockchain
use csci1951l_cryptocurrency.Blockchain.Invariant.{new-IsTree}
use csci1951l_cryptocurrency.Blockchain.Canonical.{new-AllCanonical}
use csci1951l_cryptocurrency.Miner
use csci1951l_cryptocurrency.Miner.{Miner, Sent}
use csci1951l_cryptocurrency.Miner.Soundness.{
  IsPoolSound, new-IsSoundPool, hndl_chk_blk-IsSoundPool,
}
use csci1951l_cryptocurrency.Net.AddressDb
use csci1951l_cryptocurrency.Net.PeerDb
use csci1951l_cryptocurrency.Node.{Node, Outcome}
use csci1951l_cryptocurrency.Node.Config.{Config}
use csci1951l_cryptocurrency.Node.Soundness.{IsSound, rechained, add-IsSoundChain}
use csci1951l_cryptocurrency.Node.Handlers.{safe_block}
use csci1951l_cryptocurrency.Node.Local.{
  new, send_tx, announce, hndl_mnr_blk, hndl_wt_tx, connect_to_peer, broadcast_addr, chk_miner,
  fetch_all, longest, bootstrap, start_miner,
}

module _ ⦃crypto : Crypto⦄ where
  pooled :
      (n : Node) (m : Option Miner) → IsSound n → IsPoolSound m → IsSound (record n { mnr = m })
  pooled n m s c = record { chain = s.chain; addresses = s.addresses; peers = s.peers; pool = c }

  -- A new node is sound, if the capacity of its pool is a number of 32 bits.
  pub new-IsSound :
      (conf : Config) (generated : SimpleId)
      → conf.mnr_conf.tx_p_cap < u32_mod
      → IsSound (new conf generated)
  unfolding new AddressDb.new PeerDb.new
  new-IsSound conf generated word = record {
    chain = record {
      tree = new-IsTree conf.chain_conf;
      canonical = new-AllCanonical conf.chain_conf;
    };
    addresses = omega arith;
    peers = omega arith;
    pool = new-IsSoundPool conf.mnr_conf _ word;
  }

  pub send_tx-IsSound :
      (amt fee : ℕ) (pub_k : Option Bytes) (n : Node)
      → IsSound n
      → IsSound (send_tx amt fee pub_k n).node
  unfolding send_tx
  send_tx-IsSound amt fee none n s = s
  send_tx-IsSound amt fee (some k) n s = ground (arith, s)

  pub hndl_wt_tx-IsSound :
      (t : Transaction) (n : Node) (o : Outcome)
      → hndl_wt_tx t n ≡ ok o
      → IsSound n
      → IsSound o.node
  unfolding hndl_wt_tx
  hndl_wt_tx-IsSound t n o e s =
      let (sent, announced, e') = >>=-eq-ok (announce _ _ (PeerDb.list n.peer_db) n) _ e in
      subst (λ (p : Outcome). IsSound p.node) (ok-injective e')
        (record { chain = s.chain; addresses = s.addresses; peers = s.peers; pool = s.pool })

  -- A block of the own miner.
  pub hndl_mnr_blk-IsSound :
      (b : Block) (n : Node) (o : Outcome) → hndl_mnr_blk b n ≡ ok o → IsSound n → IsSound o.node
  unfolding hndl_mnr_blk
  hndl_mnr_blk-IsSound b n o e s =
      let (chain, added, e') = >>=-eq-ok (Blockchain.add (some b) n.chain) _ e in
      let (safe, waits, e'') =
        >>=-eq-ok
          (if n.conf.wt_conf.has_wt then safe_block n.conf.wt_conf.safe_blk_amt chain else ok []) _
          e' in
      let (sent, announced, e3) = >>=-eq-ok (announce _ _ (PeerDb.list n.peer_db) n) _ e'' in
      let c = rechained n chain s (add-IsSoundChain (some b) n.chain chain s.chain added) in
      subst (λ (p : Outcome). IsSound p.node) (ok-injective e3)
        (record { chain = c.chain; addresses = c.addresses; peers = c.peers; pool = c.pool })

  chk_miner-IsSound : (b : Block) (n n' : Node) → chk_miner b n ≡ ok n' → IsSound n → IsSound n'
  unfolding chk_miner
  chk_miner-IsSound b n n' e s =
      let (m, has, e') = >>=-eq-ok (deref n.mnr) _ e in
      let counted = subst IsPoolSound (deref-eq-ok _ has) s.pool in
      subst IsSound (ok-injective e')
        (pooled n (some (Miner.hndl_chk_blk b m).0) s (hndl_chk_blk-IsSoundPool b m counted))

  checked-IsSound :
      (chk_orf : Bool) (b : Block) (n n' : Node)
      → (if chk_orf then chk_miner b n else ok n) ≡ ok n'
      → IsSound n
      → IsSound n'
  checked-IsSound true b n n' e s = chk_miner-IsSound b n n' e s
  checked-IsSound false b n n' e s = subst IsSound (ok-injective e) s

  fetch_all-IsSound :
      (fetch : Bytes → Option (Option Proto.Block)) (chk_orf : Bool) (hashes : List Bytes)
      (n n' : Node)
      → fetch_all fetch chk_orf hashes n ≡ ok n'
      → IsSound n
      → IsSound n'
  unfolding fetch_all
  fetch_all-IsSound fetch chk_orf [] n n' e s = subst IsSound (ok-injective e) s
  fetch_all-IsSound fetch chk_orf (h ∷ hashes) n n' e s =
      let (answer, e0, e1) = >>=-eq-ok (deref (fetch h)) _ e in
      let (pb, e2, e3) = >>=-eq-ok (deref answer) _ e1 in
      let (b, read, e4) = >>=-eq-ok (Block.deserialize pb) _ e3 in
      let (chain, added, e5) = >>=-eq-ok (Blockchain.add (some b) n.chain) _ e4 in
      let (n'', checked, e6) = >>=-eq-ok _ _ e5 in
      let c = rechained n chain s (add-IsSoundChain (some b) n.chain chain s.chain added) in
      fetch_all-IsSound fetch chk_orf hashes n'' n' e6 (
        checked-IsSound chk_orf b _ n'' checked
          (record { chain = c.chain; addresses = c.addresses; peers = c.peers; pool = c.pool }))

  -- `Bootstrap`, where it does not panic.
  pub bootstrap-IsSound :
      (answers : List (Option (List Bytes))) (fetch : Bytes → Option (Option Proto.Block))
      (n : Node) (o : Outcome)
      → bootstrap answers fetch n ≡ ok o
      → IsSound n
      → IsSound o.node
  unfolding bootstrap
  bootstrap-IsSound answers fetch n o e s =
      let (own, printed, e1) = >>=-eq-ok (fmt_addr n.addr) _ e in
      let (tag, named, e2) =
        >>=-eq-ok (Block.name_tag (Blockchain.block n.chain.last_block)) _ e1 in
      elim (List-cases (PeerDb.list n.peer_db)) [
        | inl alone ↦ subst (λ (p : Outcome). IsSound p.node) (ok-injective (rw alone at e2)) s
        | inr (p, ps, some_peer) ↦ elim (Option-cases (longest none answers)) [
          | inl silent ↦
              subst (λ (p : Outcome). IsSound p.node) (ok-injective (rw (some_peer, silent) at e2))
                s
          | inr (hashes, told) ↦
              let (n', fetched, e3) =
                >>=-eq-ok (fetch_all fetch (leb (length hashes) 2) hashes n) _
                  (rw (some_peer, told) at e2) in
              subst (λ (p : Outcome). IsSound p.node) (ok-injective e3)
                (fetch_all-IsSound fetch (leb (length hashes) 2) hashes n n' fetched s)
        ]
      ]

  pub start_miner-IsSound :
      (n n' : Node) (sent : List Sent) → start_miner n ≡ ok (n', sent) → IsSound n → IsSound n'
  unfolding start_miner Miner.start_miner
  start_miner-IsSound n n' sent e s =
      let (m, has, e') = >>=-eq-ok (deref n.mnr) _ e in
      let counted = subst IsPoolSound (deref-eq-ok _ has) s.pool in
      subst (λ (p : Node × List Sent). IsSound p.0) (ok-injective e')
        (pooled n (some (Miner.start_miner m).0) s counted)

  pub connect_to_peer-IsSound :
      (addr : Bytes) (n : Node) → IsSound n → IsSound (connect_to_peer addr n).node
  unfolding connect_to_peer
  connect_to_peer-IsSound addr n s = s

  pub broadcast_addr-IsSound :
      (now : ℕ) (n : Node) → IsSound n → IsSound (broadcast_addr now n).node
  unfolding broadcast_addr
  broadcast_addr-IsSound now n s = s
