-- ===== src/Node/Local/Unprintable.antt =====
-- What an address without a colon does to a node that announces a transaction.
use mathlib.Core.Option.{some-injective}
use csci1951l_cryptocurrency.Prelude.{
  ℕ, zero, suc, List, [], ◌∷◌, some, ◌≡◌, ◌≢◌, ap, ◌∙◌, All, get_elem?, inl, inr,
}
use csci1951l_cryptocurrency.Prelude.Result.{Result, ok, panic}
use csci1951l_cryptocurrency.Text.{Bytes}
use csci1951l_cryptocurrency.Utils.Logging.{fmt_addr, fmt_addr_panics}
use csci1951l_cryptocurrency.Utils.Logging.Printable.{fmt_addr_ends}
use csci1951l_cryptocurrency.Dict.{lookup}
use csci1951l_cryptocurrency.Dict.Laws.{get_elem?-lookup}
use csci1951l_cryptocurrency.Crypto.{Crypto, IsSum256}
use csci1951l_cryptocurrency.Proto.{VersionRequest}
use csci1951l_cryptocurrency.Tx
use csci1951l_cryptocurrency.Tx.{Transaction}
use csci1951l_cryptocurrency.Tx.NameTag.{name_tag_returns}
use csci1951l_cryptocurrency.Net.PeerDb
use csci1951l_cryptocurrency.Net.PeerDb.{Peer}
use csci1951l_cryptocurrency.Node.{Node, Started}
use csci1951l_cryptocurrency.Node.Handlers.{version}
use csci1951l_cryptocurrency.Node.Handlers.Greeting.{IsNew, version_new}
use csci1951l_cryptocurrency.Node.Local.{announce, hndl_wt_tx}

module _ ⦃crypto : Crypto⦄ where
  -- The loop over the peers does not get past a peer whose address has no text.
  announce_panics :
      (tag : Result Bytes) (name : Bytes) (rpc : Peer → Started) (peers : List Peer) (i : ℕ)
      (p : Peer) (n : Node)
      → tag ≡ ok name
      → get_elem? peers i ≡ some p
      → fmt_addr (n.memory.at p.addr).addr ≡ panic
      → announce tag rpc peers n ≡ panic
  unfolding announce
  announce_panics tag name rpc [] i p n named listed bad = cc
  announce_panics tag name rpc (q ∷ peers) zero p n named listed bad =
      let here : fmt_addr (n.memory.at q.addr).addr ≡ panic =
        ap (λ (r : Peer). fmt_addr (n.memory.at r.addr).addr) (some-injective _ _ listed) ∙ bad in
      elim (fmt_addr_ends n.addr) [ inl own ↦ rw own | inr (text, own) ↦ rw (own, named, here) ]
  announce_panics tag name rpc (q ∷ peers) (suc i) p n named listed bad =
      let later = announce_panics tag name rpc peers i p n named listed bad in
      elim (fmt_addr_ends n.addr) [
        | inl own ↦ rw own
        | inr (text, own) ↦ elim (fmt_addr_ends (n.memory.at q.addr).addr) [
          | inl here ↦ rw (own, named, here)
          | inr (text', here) ↦ rw (own, named, here, later)
        ]
      ]

  -- A node with a peer of that address panics at each transaction of its own wallet.
  pub hndl_wt_tx_panics :
      (t : Transaction) (n : Node) (k : Bytes) (p : Peer) (c : ℕ) (s : Bytes)
      → IsSum256
      → lookup k n.peer_db.peers ≡ some p
      → (n.memory.at p.addr).addr ≡ c ∷ s
      → All (λ b. b ≢ b':') (c ∷ s)
      → hndl_wt_tx t n ≡ panic
  unfolding hndl_wt_tx PeerDb.list
  hndl_wt_tx_panics t n k p c s law listed at_p plain =
      let (tag, named) = name_tag_returns law t in
      let (i, found) = get_elem?-lookup k p n.peer_db.peers listed in
      let bad = ap fmt_addr at_p ∙ fmt_addr_panics c s plain in
      rw (announce_panics (Tx.name_tag t) tag _ (PeerDb.list n.peer_db) i p n named found bad)

  -- A node that got a request of its own version from a new address without a colon, while both its
  -- databases had room, panics at each later transaction of its own wallet.
  pub version-hndl_wt_tx_panics :
      (req : VersionRequest) (now : ℕ) (n : Node) (c : ℕ) (s : Bytes)
      → IsSum256
      → req.version ≡ n.conf.version
      → IsNew req.addr_me n
      → req.addr_me ≡ c ∷ s
      → All (λ b. b ≢ b':') (c ∷ s)
      → (t : Transaction) → hndl_wt_tx t (version req now n).node ≡ panic
  version-hndl_wt_tx_panics req now n c s law same new spelt plain t =
      let (p, listed, at_p) = version_new req now n same new in
      hndl_wt_tx_panics t (version req now n).node req.addr_me p c s law listed (at_p ∙ spelt) plain
