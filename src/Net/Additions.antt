-- ===== src/Net/Additions.antt =====
-- What is added to the databases under a new name, while there is room.
use csci1951l_cryptocurrency.Prelude.{
  ℕ, ◌<◌, ap, ◌∙◌, true, false, none, ◌≡◌, arith, length, ltb, leb,
}
use csci1951l_cryptocurrency.Text.{Bytes}
use csci1951l_cryptocurrency.Dict.{lookup, insert}
use csci1951l_cryptocurrency.Net.Address.{Memory}
use csci1951l_cryptocurrency.Net.AddressDb
use csci1951l_cryptocurrency.Net.AddressDb.{EphemeralAddressDb}
use csci1951l_cryptocurrency.Net.PeerDb
use csci1951l_cryptocurrency.Net.PeerDb.{EphemeralPeerDb, Peer}

pub address_added :
    (r : ℕ) (k : Bytes) (m : Memory) (adb : EphemeralAddressDb)
    → (m.at r).addr ≡ k
    → lookup k adb.addresses ≡ none
    → length adb.addresses < adb.limit
    → AddressDb.add r m adb ≡ (none, record adb { addresses = insert k r adb.addresses })
unfolding AddressDb.add
address_added r k m adb named stranger room =
    let missing : lookup (m.at r).addr adb.addresses ≡ none =
      ap (λ (x : Bytes). lookup x adb.addresses) named ∙ stranger in
    let free : leb adb.limit (length adb.addresses) ≡ false = ground arith in
    ground (arith, missing, free, named)

pub peer_added :
    (p : Peer) (k : Bytes) (m : Memory) (pdb : EphemeralPeerDb)
    → (m.at p.addr).addr ≡ k
    → lookup k pdb.peers ≡ none
    → length pdb.peers < pdb.limit
    → PeerDb.add p m pdb ≡ (true, record pdb { peers = insert k p pdb.peers })
unfolding PeerDb.add
peer_added p k m pdb named stranger room =
    let missing : lookup (m.at p.addr).addr pdb.peers ≡ none =
      ap (λ (x : Bytes). lookup x pdb.peers) named ∙ stranger in
    let free : ltb (length pdb.peers) pdb.limit ≡ true = ground arith in
    ground (arith, missing, free, named)
