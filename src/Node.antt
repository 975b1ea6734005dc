-- ===== src/Node.antt =====
-- BrunoCoin/pkg/node.go: the state of a node, and what it starts. The parts of the node's program
-- are in the modules below: Validation (validation.go), Handlers (server.go), Local and Lifecycle
-- (node.go), and Runs, in which the handlers and what they start are steps.
-- A handler is one step: it gives the new node, the calls that it starts in goroutines, in order,
-- and whether it returned an error.
pub mod Config
pub mod Validation
pub mod Handlers
pub mod Local
pub mod Lifecycle
pub mod Soundness
pub mod Runs
pub mod Tests
use csci1951l_cryptocurrency.Prelude.{ℕ, List, [], Bool, Option}
use csci1951l_cryptocurrency.Text.{Bytes}
use csci1951l_cryptocurrency.Dict.{Dict}
use csci1951l_cryptocurrency.Crypto.{Crypto}
use csci1951l_cryptocurrency.Crypto.Id.{SimpleId}
use csci1951l_cryptocurrency.Proto
use csci1951l_cryptocurrency.Proto.{VersionRequest}
use csci1951l_cryptocurrency.Tx.{Transaction}
use csci1951l_cryptocurrency.Block.{Block}
use csci1951l_cryptocurrency.Blockchain.{Blockchain}
use csci1951l_cryptocurrency.Miner.{Miner}
use csci1951l_cryptocurrency.Wallet.{Wallet, TxReq}
use csci1951l_cryptocurrency.Net.Address.{Memory, ProtoAddress}
use csci1951l_cryptocurrency.Net.AddressDb.{EphemeralAddressDb}
use csci1951l_cryptocurrency.Net.PeerDb.{EphemeralPeerDb, Peer}

-- A call that a handler makes on another part in a goroutine, or a request to another node. The
-- request that answers one of `Version` is `answer_rpc`: its error is returned and not printed. A
-- request for a connection is made with a new address object, which has a reference if it is also in
-- the database of addresses.
pub data Started : Type 0 where
  wallet_hndl_tx_req : TxReq → Started
  wallet_hndl_blk : Block → Started
  mnr_hndl_tx : Transaction → Started
  mnr_hndl_blk : Block → Started
  forward_transaction_rpc : Peer → Proto.Transaction → Started
  forward_block_rpc : Peer → Proto.Block → Started
  version_rpc answer_rpc : Option ℕ → Bytes → VersionRequest → Started
  send_addresses_rpc : Peer → List ProtoAddress → Started

module _ ⦃crypto : Crypto⦄ where
  -- The field `fGetAddr` and the field `Paused` are never read.
  pub record Node : Type 0 where
    pub conf : Config.Config
    pub addr : Bytes
    pub id : SimpleId
    pub chain : Blockchain
    pub wallet : Option Wallet
    pub mnr : Option Miner
    pub memory : Memory
    pub addr_db : EphemeralAddressDb
    pub peer_db : EphemeralPeerDb
    pub tx_map : Dict Bool
    pub block_map : Dict Bool

  -- How a handler ends.
  pub record Outcome : Type 0 where
    pub node : Node
    pub started : List Started
    pub failed : Bool
