-- ===== src/Net/Limits.antt =====
-- An addition, with no other at the same time, keeps a database of addresses or peers within its
-- limit.
use csci1951l_cryptocurrency.Prelude.{
  ℕ, ◌≤◌, true, false, none, some, ◌≡◌, arith, length, Option-cases, inl, inr,
}
use csci1951l_cryptocurrency.Text.{Bytes}
use csci1951l_cryptocurrency.Dict.{Dict, lookup, contains}
use csci1951l_cryptocurrency.Dict.Laws.{length-insert}
use csci1951l_cryptocurrency.Net.Address.{Memory}
use csci1951l_cryptocurrency.Net.AddressDb
use csci1951l_cryptocurrency.Net.AddressDb.{EphemeralAddressDb}
use csci1951l_cryptocurrency.Net.PeerDb
use csci1951l_cryptocurrency.Net.PeerDb.{EphemeralPeerDb, Peer}

contains-none : {V : Type 0} (k : Bytes) (d : Dict V) → lookup k d ≡ none → contains k d ≡ false
unfolding contains
contains-none k d missing = ground (arith, missing)

contains-some :
    {V : Type 0} (k : Bytes) (d : Dict V) (v : V) → lookup k d ≡ some v → contains k d ≡ true
unfolding contains
contains-some k d v found = ground (arith, found)

-- Adding an address keeps the database within its limit, whether or not it is added.
pub address_add_within :
    (r : ℕ) (m : Memory) (adb : EphemeralAddressDb)
    → length adb.addresses ≤ adb.limit
    → length (AddressDb.add r m adb).1.addresses ≤ adb.limit
unfolding AddressDb.add
address_add_within r m adb within = elim (Option-cases (lookup (m.at r).addr adb.addresses)) [
  | inr (old, found) ↦ ground (arith, found, within)
  | inl missing ↦ ground (
    arith,
    missing,
    within,
    length-insert (m.at r).addr r adb.addresses,
    contains-none (m.at r).addr adb.addresses missing,
  )
]

-- Adding a peer keeps the database within its limit, whether the peer is new, replaced or refused.
pub peer_add_within :
    (p : Peer) (m : Memory) (pdb : EphemeralPeerDb)
    → length pdb.peers ≤ pdb.limit
    → length (PeerDb.add p m pdb).1.peers ≤ pdb.limit
unfolding PeerDb.add
peer_add_within p m pdb within = elim (Option-cases (lookup (m.at p.addr).addr pdb.peers)) [
  | inr (old, found) ↦ ground (
    arith,
    found,
    within,
    length-insert (m.at p.addr).addr p pdb.peers,
    contains-some (m.at p.addr).addr pdb.peers old found,
  )
  | inl missing ↦ ground (
    arith,
    missing,
    within,
    length-insert (m.at p.addr).addr p pdb.peers,
    contains-none (m.at p.addr).addr pdb.peers missing,
  )
]
