-- ===== src/Node/Handlers/Greeting.antt =====
-- What a request for a connection from a new address leaves behind.
use csci1951l_cryptocurrency.Prelude.{
  ℕ, ◌<◌, ap, true, Option, none, some, ◌≡◌, refl, arith, length, ◌==◌, ==_iff,
}
use csci1951l_cryptocurrency.Prelude.Word.{u32}
use csci1951l_cryptocurrency.Text.{Bytes}
use csci1951l_cryptocurrency.Dict.{lookup, insert}
use csci1951l_cryptocurrency.Dict.Laws.{lookup-insert_self}
use csci1951l_cryptocurrency.Crypto.{Crypto}
use csci1951l_cryptocurrency.Proto.{VersionRequest}
use csci1951l_cryptocurrency.Net.Address
use csci1951l_cryptocurrency.Net.Address.{Memory}
use csci1951l_cryptocurrency.Net.Additions.{address_added, peer_added}
use csci1951l_cryptocurrency.Net.AddressDb
use csci1951l_cryptocurrency.Net.PeerDb.{Peer}
use csci1951l_cryptocurrency.Node.{Node}
use csci1951l_cryptocurrency.Node.Handlers.{know_address, answer_version, new_object, version}

-- A node has no entry for the address in either database, and room for one in both.
pub record IsNew ⦃crypto : Crypto⦄ (addr : Bytes) (n : Node) : Type 0 where
  pub unknown : lookup addr n.addr_db.addresses ≡ none
  pub room : length n.addr_db.addresses < n.addr_db.limit
  pub stranger : lookup addr n.peer_db.peers ≡ none
  pub seat : length n.peer_db.peers < n.peer_db.limit

module _ ⦃crypto : Crypto⦄ where
  alloc-at : (a : Address.Address) (m : Memory) → (Address.alloc a m).at m.next ≡ a
  unfolding Address.alloc
  alloc-at a m = rw ((==_iff m.next m.next).1 refl)

  named_new :
      (addr : Bytes) (seen_at : ℕ) (m : Memory)
      → ((Address.alloc (Address.new addr seen_at) m).at m.next).addr ≡ addr
  unfolding Address.new
  named_new addr seen_at m =
      ap (λ (a : Address.Address). a.addr) (alloc-at (Address.new addr seen_at) m)

  fresh_new :
      (addr : Bytes) (seen_at : ℕ) (m : Memory)
      → ((Address.alloc (Address.new addr seen_at) m).at m.next).sent_ver ≡ 0
  unfolding Address.new
  fresh_new addr seen_at m =
      ap (λ (a : Address.Address). a.sent_ver) (alloc-at (Address.new addr seen_at) m)

  -- The node with a fresh address object for the sender.
  abbrev known : Bytes → ℕ → Node → Node
  known addr seen_at n = record n {
    memory = Address.alloc (Address.new addr seen_at) n.memory;
    addr_db = record n.addr_db { addresses = insert addr n.memory.next n.addr_db.addresses };
  }

  know_address_new :
      (addr : Bytes) (seen_at : ℕ) (n : Node)
      → IsNew addr n
      → know_address addr seen_at n ≡ some (n.memory.next, known addr seen_at n)
  unfolding know_address AddressDb.get
  know_address_new addr seen_at n v =
      let m = Address.alloc (Address.new addr seen_at) n.memory in
      let added =
        address_added n.memory.next addr m n.addr_db (named_new addr seen_at n.memory) v.unknown
          v.room in
      rw (know_address, AddressDb.get, v.unknown, added)
        (ap
          (λ (q : Option AddressDb.AddrError × AddressDb.EphemeralAddressDb).
            some (n.memory.next, record n { memory = m; addr_db = q.1 }))
          added)

  answer_version_new :
      (req : VersionRequest) (now : ℕ) (new : Option ℕ) (r : ℕ) (n : Node) (k : Bytes)
      → (n.memory.at r).addr ≡ k
      → (n.memory.at r).sent_ver ≡ 0
      → lookup k n.peer_db.peers ≡ none
      → length n.peer_db.peers < n.peer_db.limit
      → (p : Peer) × (lookup k (answer_version req now new r n).node.peer_db.peers ≡ some p)
        × (((answer_version req now new r n).node.memory.at p.addr).addr ≡ k)
  unfolding answer_version Address.write
  answer_version_new req now new r n k named fresh stranger seat =
      let p : Peer = record { addr = r; version = req.version; best_height = req.best_height } in
      let added = peer_added p k n.memory n.peer_db named stranger seat in
      (
        p,
        rw (added, fresh) (lookup-insert_self k p n.peer_db.peers),
        rw (added, fresh) (ground (arith, named)),
      )

  -- Answering a request of the own version from a new address, while both databases have room, the
  -- node has a peer under that name, whose object has that name.
  pub version_new :
      (req : VersionRequest) (now : ℕ) (n : Node)
      → req.version ≡ n.conf.version
      → IsNew req.addr_me n
      → (p : Peer) × (lookup req.addr_me (version req now n).node.peer_db.peers ≡ some p)
        × (((version req now n).node.memory.at p.addr).addr ≡ req.addr_me)
  unfolding version
  version_new req now n same v =
      let r = n.memory.next in
      let n' = known req.addr_me (u32 now) n in
      let is_same : (req.version == n.conf.version) ≡ true =
        (==_iff req.version n.conf.version).1 same in
      rw (is_same, know_address_new req.addr_me (u32 now) n v)
        (answer_version_new req now (new_object req.addr_me r n) r n' req.addr_me
          (named_new req.addr_me (u32 now) n.memory) (fresh_new req.addr_me (u32 now) n.memory)
          v.stranger v.seat)
