-- ===== src/Lib.antt =====
-- BrunoCoin, a cryptocurrency in Go: BrunoCoin/pkg of the repository.
--
-- A node keeps a blockchain, a wallet, a miner and two databases, of addresses and of peers. Other
-- nodes call its handlers with transactions, blocks and addresses; the wallet makes transactions
-- from the unspent outputs of the chain, and the miner makes blocks from a pool of transactions.
--
-- Files and the code they model, by paths under BrunoCoin/pkg:
--   Prelude, Text, Dict: shared helpers. Numbers, uint32 with its wrap-around (Prelude/Word), results
--     that may panic (Prelude/Result), strings as lists of bytes with the conversions of Go's
--     strconv, hex and strings (Text), Go maps as association lists (Dict).
--   Crypto, Crypto/Id: utils/crypto.go and id/. SHA-256, ECDSA and the key formats are those of Go's
--     library, and are a parameter of all that uses them: the record Crypto, whose laws are stated
--     where a theorem needs them. Crypto/Toy is an instance for the tests.
--   Proto: the messages of proto/advancedcoin.pb.go, and proto/constructors.go.
--   Tx, Tx/Txi, Tx/Txo: block/tx/tx.go, block/tx/txi/txi.go and block/tx/txo/txo.go.
--   Tx/Heap: block/tx/tx_heap.go with the functions of container/heap that it calls.
--   Utils: utils/general.go. Utils/Logging: the text of an address and of a name in the log lines
--     (utils/logging.go), which a handler makes whether or not the lines are printed.
--   Block: block/block.go. `Block.new` is New, `Block.calc_mrkl_rt` is CalcMrklRt.
--   Blockchain: blockchain/blockchain.go and config.go. A node of the tree holds its block, the node
--     before it, its depth and a reference to a map of unspent outputs; `Blockchain.maps` is the
--     memory in which these maps are, since several nodes hold one map.
--   Miner, Miner/TxPool: miner/. A method gives the new miner and what it sent on its channels.
--   Wallet, Wallet/LiminalTxs: wallet/.
--   Net/Address, Net/AddressDb, Net/PeerDb: address/ and peer/. Address objects are held by reference,
--     since both databases share them. Net/Client: address/client.go, over the gRPC library and its
--     stubs, which are a parameter with a state of its own: the record Grpc.
--   Node/Config, Node/Validation, Node/Handlers, Node/Local: config.go, validation.go, server.go, and
--     the local events of node.go. A handler is one step, and gives the new node, the goroutines
--     and remote calls that it started, and whether it returned an error.
--   Node/Lifecycle: Start, StartServer, PauseNetwork, ResumeNetwork and Kill of node.go, and a round of
--     the goroutine that Start begins.
--   Node/Runs: a node with its goroutines that have not run and its channels, and its steps: its start,
--     a handler, a goroutine, a message on a channel, or a round of the miner, in any order.
--   Tests in each component: the theorems at concrete arguments.
--
-- Conventions. A method of an object takes its arguments first and the object last. A uint32 is a
-- natural number below 2 ^ 32, and the arithmetic of the code wraps around as it does in Go. An int
-- that counts or indexes is a natural number or an integer without bound. A nil pointer is `none`;
-- what reads through it, and every other run-time panic of Go, is `panic`. A range over a map takes
-- the order of the association list, and a theorem that depends on no order says so by a permutation.
-- Time, random bytes and shuffles are arguments.
--
-- Bounds. The loops of the heap run on the length of the heap as fuel, since each round halves the
-- index or moves it on. The loop of CalcMrklRt runs on fuel, and running out is the result
-- `out_of_fuel`, no answer; the fuel that is given is shown to be enough below. All other loops are
-- structural.
--
-- Not modelled: what the loggers print, and SetDebug; the operating system and the libraries that
-- listen and serve, whose answers are arguments and parameters; generated code, of which only the sizes of the messages are used. Handlers
-- that run at the same time: a handler, a goroutine that it started and a round of the miner are each
-- one step, which ends before the next begins. The code does not see to that. Methods of the chain
-- that change it, of the pool and of the wallet's queue hold a lock from their begin to their end, but
-- a handler calls several of them; BlockMap has a lock for each access; and AddrDb, PeerDb and TxMap
-- are read and written with no lock, so that two handlers at once can enter more addresses or peers
-- than the limit. The steps of a node therefore say nothing of these limits. That the wallet and the pool of the miner may share a
-- transaction object, whose lock time the wallet changes in place, is not modelled: each has its own
-- copy. String of a block is its hash. RathDB and Redwood are other programs.
pub mod Prelude
pub mod Text
pub mod Dict
pub mod Crypto
pub mod Proto
pub mod Tx
pub mod Utils
pub mod Block
pub mod Blockchain
pub mod Miner
pub mod Wallet
pub mod Net
pub mod Node
