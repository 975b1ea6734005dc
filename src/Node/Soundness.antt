-- ===== src/Node/Soundness.antt =====
-- What holds of a node whose handlers run one after the other.
use csci1951l_cryptocurrency.Prelude.{◌≤◌, Option, ◌≡◌, length}
use csci1951l_cryptocurrency.Prelude.Result.{ok}
use csci1951l_cryptocurrency.Crypto.{Crypto}
use csci1951l_cryptocurrency.Block.{Block}
use csci1951l_cryptocurrency.Blockchain
use csci1951l_cryptocurrency.Blockchain.{Blockchain}
use csci1951l_cryptocurrency.Blockchain.Invariant.{IsTree, add-IsTree}
use csci1951l_cryptocurrency.Blockchain.Canonical.{AllCanonical, add-AllCanonical}
use csci1951l_cryptocurrency.Miner.Soundness.{IsPoolSound}
use csci1951l_cryptocurrency.Net.AddressDb.{EphemeralAddressDb}
use csci1951l_cryptocurrency.Net.PeerDb.{EphemeralPeerDb}
use csci1951l_cryptocurrency.Node.{Node}

-- No more addresses, and no more peers, than the limit.
abbrev pub IsWithin : EphemeralAddressDb → Type 0
IsWithin adb = length adb.addresses ≤ adb.limit

abbrev pub IsPeersWithin : EphemeralPeerDb → Type 0
IsPeersWithin pdb = length pdb.peers ≤ pdb.limit

module _ ⦃crypto : Crypto⦄ where
  -- The chain is a tree, and the keys of its maps are locators, each once in a map.
  pub record IsSoundChain (bc : Blockchain) : Type 0 where
    pub tree : IsTree bc
    pub canonical : AllCanonical bc

  pub record IsSound (n : Node) : Type 0 where
    pub chain : IsSoundChain n.chain
    pub addresses : IsWithin n.addr_db
    pub peers : IsPeersWithin n.peer_db
    pub pool : IsPoolSound n.mnr

  -- A block that is added, where this does not panic, leaves the chain sound.
  pub add-IsSoundChain :
      (b : Option Block) (bc bc' : Blockchain)
      → IsSoundChain bc
      → Blockchain.add b bc ≡ ok bc'
      → IsSoundChain bc'
  add-IsSoundChain b bc bc' s e = record {
    tree = add-IsTree b bc bc' s.tree e;
    canonical = add-AllCanonical b bc bc' s.canonical e;
  }

  -- A node with another chain.
  pub rechained :
      (n : Node) (bc : Blockchain) → IsSound n → IsSoundChain bc → IsSound (record n { chain = bc })
  rechained n bc s c = record { chain = c; addresses = s.addresses; peers = s.peers; pool = s.pool }
