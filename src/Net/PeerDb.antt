-- ===== src/Net/PeerDb.antt =====
-- BrunoCoin/pkg/peer. The lock of the database is never taken: each operation is what it does when
-- no other runs at the same time.
use csci1951l_cryptocurrency.Prelude.{
  ℕ, List, [], ◌∷◌, Bool, true, false, not, Option, none, some, length, leb, ltb, ◌==◌,
  if◌then◌else◌, map, take,
}
use csci1951l_cryptocurrency.Prelude.Result.{Result, ok, panic}
use csci1951l_cryptocurrency.Text.{Bytes}
use csci1951l_cryptocurrency.Dict.{Dict, lookup, contains, insert}
use csci1951l_cryptocurrency.Utils.{in_slice}
use csci1951l_cryptocurrency.Net.Address.{Memory, write}

-- A peer holds its address by reference.
pub record Peer : Type 0 where
  pub addr : ℕ
  pub version : ℕ
  pub best_height : ℕ

pub record EphemeralPeerDb : Type 0 where
  pub peers : Dict Peer
  pub limit : ℕ
  pub own_addr : Bytes

unfoldable pub new : ℕ → Bytes → EphemeralPeerDb
new limit addr = record { peers = []; limit = limit; own_addr = addr }

pub is_in : Bytes → EphemeralPeerDb → Bool
is_in k pdb = contains k pdb.peers

unfoldable pub set_addr : Bytes → EphemeralPeerDb → EphemeralPeerDb
set_addr addr pdb = record pdb { own_addr = addr }

-- A known peer is replaced if its address was seen at another time, a new one is added if there is
-- room.
may_add : Peer → Memory → EphemeralPeerDb → Bool
may_add p m pdb = elim (lookup (m.at p.addr).addr pdb.peers) [
  | none ↦ ltb (length pdb.peers) pdb.limit
  | some old ↦ not ((m.at p.addr).last_seen == (m.at old.addr).last_seen)
]

unfoldable pub add : Peer → Memory → EphemeralPeerDb → Bool × EphemeralPeerDb
unfolding may_add
add p m pdb =
    if may_add p m pdb
    then (true, record pdb { peers = insert (m.at p.addr).addr p pdb.peers })
    else (false, pdb)

pub get : Bytes → EphemeralPeerDb → Option Peer
get addr pdb = lookup addr pdb.peers

-- Whether the peer was found.
pub update_last_seen : Bytes → ℕ → Memory → EphemeralPeerDb → Bool × Memory
update_last_seen addr last_seen m pdb = elim (lookup addr pdb.peers) [
  | none ↦ (false, m)
  | some p ↦ (true, write p.addr (record (m.at p.addr) { last_seen = last_seen }) m)
]

unfoldable pub list : EphemeralPeerDb → List Peer
list pdb = map (λ (e : Bytes × Peer). e.1) pdb.peers

-- The keys that are not excluded.
allowed : List Bytes → Dict Peer → List Bytes
allowed exclude [] = []
allowed exclude ((k, p) ∷ peers) =
    if in_slice exclude k then allowed exclude peers else k ∷ allowed exclude peers

-- `pdb.peers[key]` for the keys drawn; they are keys of the map.
peers_at : List Bytes → Dict Peer → List Peer
peers_at [] peers = []
peers_at (k ∷ keys) peers = elim (lookup k peers) [
  | none ↦ peers_at keys peers
  | some p ↦ p ∷ peers_at keys peers
]

-- `shuffle` is what `rand.Shuffle` does to the keys. Fewer keys than asked for are a slice out of
-- range.
pub get_random : (List Bytes → List Bytes) → ℕ → List Bytes → EphemeralPeerDb → Result (List Peer)
unfolding allowed peers_at
get_random shuffle n exclude pdb =
    let keys = shuffle (allowed exclude pdb.peers) in
    if leb (length pdb.peers) n
    then ok (list pdb)
    else if ltb (length keys) n
    then panic
    else ok (peers_at (take n keys) pdb.peers)
