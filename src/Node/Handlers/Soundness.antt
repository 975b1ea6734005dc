-- ===== src/Node/Handlers/Soundness.antt =====
-- The handlers of other nodes' requests leave the node sound.
use csci1951l_cryptocurrency.Prelude.{
  ℕ, List, [], ◌∷◌, Bool, false, Option, some, ◌≡◌, sym, ap, subst, arith, Bool-cases, Option-cases,
  inl, inr,
}
use mathlib.Core.Option.{some-injective, some-ne-none}
use csci1951l_cryptocurrency.Prelude.Word.{u32}
use csci1951l_cryptocurrency.Prelude.Result.{ok, >>=-eq-ok, ok-injective}
use csci1951l_cryptocurrency.Text.{Bytes}
use csci1951l_cryptocurrency.Text.Equality.{beq}
use csci1951l_cryptocurrency.Crypto.{Crypto}
use csci1951l_cryptocurrency.Proto
use csci1951l_cryptocurrency.Proto.{VersionRequest}
use csci1951l_cryptocurrency.Net.Address
use csci1951l_cryptocurrency.Net.Address.{Memory, ProtoAddress}
use csci1951l_cryptocurrency.Net.AddressDb
use csci1951l_cryptocurrency.Net.AddressDb.{EphemeralAddressDb}
use csci1951l_cryptocurrency.Net.PeerDb
use csci1951l_cryptocurrency.Net.PeerDb.{EphemeralPeerDb, Peer}
use csci1951l_cryptocurrency.Net.Limits.{address_add_within, peer_add_within}
use csci1951l_cryptocurrency.Node.{Node, Outcome}
use csci1951l_cryptocurrency.Node.Soundness.{
  IsWithin, IsPeersWithin, IsSound, rechained, add-IsSoundChain,
}
use csci1951l_cryptocurrency.Node.Handlers.{
  know_address, new_object, answer_version, version, learn_address, learn_all, send_addresses,
  accept_tx, forward_transaction, forward_block,
}
use csci1951l_cryptocurrency.Node.Handlers.Relay.{noted, known, refused, accepted, heard, offered}

add-IsWithin :
    (r : ℕ) (m : Memory) (adb : EphemeralAddressDb)
    → IsWithin adb
    → IsWithin (AddressDb.add r m adb).1
unfolding AddressDb.add
add-IsWithin r m adb within = ground (arith, address_add_within r m adb within)

add-IsPeersWithin :
    (p : Peer) (m : Memory) (pdb : EphemeralPeerDb)
    → IsPeersWithin pdb
    → IsPeersWithin (PeerDb.add p m pdb).1
unfolding PeerDb.add
add-IsPeersWithin p m pdb within = ground (arith, peer_add_within p m pdb within)

module _ ⦃crypto : Crypto⦄ where
  -- A node with other objects in memory, and other addresses.
  readdressed :
      (n : Node) (m : Memory) (adb : EphemeralAddressDb)
      → IsSound n
      → IsWithin adb
      → IsSound (record n { memory = m; addr_db = adb })
  readdressed n m adb s within = record {
    chain = s.chain;
    addresses = within;
    peers = s.peers;
    pool = s.pool;
  }

  know_address-IsSound :
      (addr : Bytes) (seen_at r : ℕ) (n n' : Node)
      → know_address addr seen_at n ≡ some (r, n')
      → IsSound n
      → IsSound n'
  unfolding know_address
  know_address-IsSound addr seen_at r n n' e s =
      elim (Option-cases (AddressDb.get addr n.addr_db)) [
        | inr (old, found) ↦
            subst IsSound
              (ap (λ (p : ℕ × Node). p.1) (some-injective _ _ (rw (know_address, found) at e)))
              (readdressed n _ n.addr_db s s.addresses)
        | inl missing ↦
            let m = Address.alloc (Address.new addr seen_at) n.memory in
            elim (Option-cases (AddressDb.add n.memory.next m n.addr_db).0) [
              | inr (err, failed) ↦
                  absurd (some-ne-none _ (sym (rw (know_address, missing, failed) at e)))
              | inl added ↦
                  let e' = rw (know_address, missing, added) at e in
                  subst IsSound (ap (λ (p : ℕ × Node). p.1) (some-injective _ _ e'))
                    (readdressed n m _ s (add-IsWithin n.memory.next m n.addr_db s.addresses))
            ]
      ]

  answer_version-IsSound :
      (req : VersionRequest) (now : ℕ) (new : Option ℕ) (r : ℕ) (n : Node)
      → IsSound n
      → IsSound (answer_version req now new r n).node
  unfolding answer_version
  answer_version-IsSound req now new r n s =
      let peer : Peer = record { addr = r; version = req.version; best_height = req.best_height } in
      let peered : (m : Memory)
          → IsSound (record n { peer_db = (PeerDb.add peer n.memory n.peer_db).1; memory = m }) =
        λ m. record {
          chain = s.chain;
          addresses = s.addresses;
          peers = add-IsPeersWithin peer n.memory n.peer_db s.peers;
          pool = s.pool;
        } in
      ground (
        arith,
        peered n.memory,
        peered (Address.write r (record (n.memory.at r) { sent_ver = now }) n.memory),
      )

  -- `Version` leaves the node sound.
  pub version-IsSound :
      (req : VersionRequest) (now : ℕ) (n : Node) → IsSound n → IsSound (version req now n).node
  unfolding version
  version-IsSound req now n s = elim (Option-cases (know_address req.addr_me (u32 now) n)) [
    | inl unknown ↦ ground (arith, unknown, s)
    | inr ((r, n'), found) ↦ ground (
      arith,
      found,
      s,
      answer_version-IsSound req now (new_object req.addr_me r n) r n'
          (know_address-IsSound req.addr_me (u32 now) r n n' found s),
    )
  ]

  -- One address that is heard of.
  learn_address-IsSound : (a : ProtoAddress) (n : Node) → IsSound n → IsSound (learn_address a n).0
  unfolding learn_address
  learn_address-IsSound a n s =
      let kept : (m : Memory) → IsSound (record n { memory = m }) =
        λ m. readdressed n m n.addr_db s s.addresses in
      let m = Address.alloc (Address.new a.addr a.last_seen) n.memory in
      let grown = readdressed n m _ s (add-IsWithin n.memory.next m n.addr_db s.addresses) in
      elim (Option-cases (PeerDb.get a.addr n.peer_db)) [
        | inr (p, found) ↦ ground (arith, found, s, kept _)
        | inl missing ↦ elim (Option-cases (AddressDb.get a.addr n.addr_db)) [
          | inr (r, listed) ↦ ground (arith, missing, listed, s, kept _)
          | inl unknown ↦ ground (arith, missing, unknown, s, grown)
        ]
      ]

  learn_all-IsSound :
      (addrs : List ProtoAddress) (found : Bool) (n : Node)
      → IsSound n
      → IsSound (learn_all addrs found n).0
  unfolding learn_all
  learn_all-IsSound [] found n s = s
  learn_all-IsSound (a ∷ addrs) found n s = elim (Bool-cases (beq a.addr n.addr)) [
    | inl own ↦ rw own (learn_all-IsSound addrs found n s)
    | inr other ↦
        rw other (learn_all-IsSound addrs _ (learn_address a n).0 (learn_address-IsSound a n s))
  ]

  -- `SendAddresses`, where it does not panic, leaves the node sound.
  pub send_addresses-IsSound :
      (shuffle : List Bytes → List Bytes) (addrs : List ProtoAddress) (n : Node) (o : Outcome)
      → send_addresses shuffle addrs n ≡ ok o
      → IsSound n
      → IsSound o.node
  unfolding send_addresses
  send_addresses-IsSound shuffle addrs n o e s =
      let r = learn_all addrs false n in
      let sound_node = learn_all-IsSound addrs false n s in
      elim (Bool-cases r.1) [
        | inl new ↦
            let (peers, drawn, e') =
              >>=-eq-ok (PeerDb.get_random shuffle 2 (r.0.addr ∷ []) r.0.peer_db) _
                (rw (send_addresses, new) at e) in
            subst (λ (p : Outcome). IsSound p.node) (ok-injective e') sound_node
        | inr nothing ↦
            subst (λ (p : Outcome). IsSound p.node)
              (ok-injective (rw (send_addresses, nothing) at e)) sound_node
      ]

  -- A transaction message leaves the node sound, whether it is known, refused or accepted.
  pub forward_transaction-IsSound :
      (inp : Proto.Transaction) (n : Node) (o : Outcome)
      → forward_transaction inp n ≡ ok o
      → IsSound n
      → IsSound o.node
  unfolding accept_tx
  forward_transaction-IsSound inp n o e s = elim (heard inp n o e) [
    | known again same ↦ rw same s
    | refused invalid same ↦ rw same s
    | accepted valid same ↦
        rw same
          (record { chain = s.chain; addresses = s.addresses; peers = s.peers; pool = s.pool })
  ]

  -- A block message, where it does not make the node panic, leaves it sound.
  pub forward_block-IsSound :
      (inp : Proto.Block) (n : Node) (o : Outcome)
      → forward_block inp n ≡ ok o
      → IsSound n
      → IsSound o.node
  forward_block-IsSound inp n o e s =
      let (b, read, how) = offered inp n o e in
      let noted_sound : IsSound (noted b n) = record {
        chain = s.chain;
        addresses = s.addresses;
        peers = s.peers;
        pool = s.pool;
      } in
      elim how [
        | known again same ↦ rw same s
        | refused invalid same ↦ rw same noted_sound
        | accepted valid chain added same ↦ subst IsSound (sym same) (
            rechained (noted b n) chain noted_sound
              (add-IsSoundChain (some b) n.chain chain s.chain added))
      ]
