-- ===== src/Node/Local.antt =====
-- BrunoCoin/pkg/node.go: what the node does by itself and for its user.
pub mod Soundness
pub mod Unprintable
pub mod Announced
pub mod Longest
pub mod Fetch
pub mod Sync
pub mod CatchUp
pub mod Tests
use csci1951l_cryptocurrency.Prelude.{
  ℕ, List, [], ◌∷◌, ◌++◌, map, Bool, true, false, Option, none, some, length, ltb, leb, ◌==◌,
  if◌then◌else◌,
}
use csci1951l_cryptocurrency.Prelude.Word.{u32}
use csci1951l_cryptocurrency.Prelude.Result.{Result, ok, ◌>>=◌, deref}
use csci1951l_cryptocurrency.Text.{Bytes}
use csci1951l_cryptocurrency.Utils.Logging.{fmt_addr}
use csci1951l_cryptocurrency.Dict.{insert}
use csci1951l_cryptocurrency.Crypto.{Crypto}
use csci1951l_cryptocurrency.Crypto.Id.{SimpleId}
use csci1951l_cryptocurrency.Proto
use csci1951l_cryptocurrency.Tx
use csci1951l_cryptocurrency.Tx.{Transaction}
use csci1951l_cryptocurrency.Block
use csci1951l_cryptocurrency.Block.{Block}
use csci1951l_cryptocurrency.Blockchain
use csci1951l_cryptocurrency.Blockchain.{Blockchain}
use csci1951l_cryptocurrency.Miner
use csci1951l_cryptocurrency.Miner.{Miner, Sent}
use csci1951l_cryptocurrency.Wallet
use csci1951l_cryptocurrency.Net.Address.{ProtoAddress}
use csci1951l_cryptocurrency.Net.Address
use csci1951l_cryptocurrency.Net.AddressDb
use csci1951l_cryptocurrency.Net.PeerDb
use csci1951l_cryptocurrency.Net.PeerDb.{Peer}
use csci1951l_cryptocurrency.Node.Config.{Config}
use csci1951l_cryptocurrency.Node.{
  Node, Outcome, Started, wallet_hndl_tx_req, mnr_hndl_tx, forward_transaction_rpc,
  forward_block_rpc, version_rpc, send_addresses_rpc,
}
use csci1951l_cryptocurrency.Node.Handlers.{unchanged, safe_block}

module _ ⦃crypto : Crypto⦄ where
  -- `generated` is the identity that `id.New` makes, used unless the configuration has one.
  pub new : Config → SimpleId → Node
  new conf generated =
      let id : SimpleId = elim conf.cstm_id [ none ↦ generated | some custom ↦ custom ] in
      record {
        conf = conf;
        addr = [];
        id = id;
        chain = Blockchain.new conf.chain_conf;
        wallet = Wallet.new conf.wt_conf id;
        mnr = Miner.new conf.mnr_conf id;
        memory = record { at = λ r. Address.new [] 0; next = 0 };
        addr_db = AddressDb.new 1000;
        peer_db = PeerDb.new 200 [];
        tx_map = [];
        block_map = [];
      }

  -- A nil key is no bytes at all: `none`.
  pub send_tx : ℕ → ℕ → Option Bytes → Node → Outcome
  send_tx amt fee none n = unchanged n false
  send_tx amt fee (some pub_k) n = if amt == 0 then unchanged n false else record {
    node = n;
    started = wallet_hndl_tx_req (record { pub_k = pub_k; amt = amt; fee = fee }) ∷ [];
    failed = false;
  }

  pub get_balance : Bytes → Node → ℕ
  get_balance pk n = Blockchain.get_balance pk n.chain

  -- The loop over the peers that what has the given tag is sent to. Both addresses and the tag are
  -- made into texts to be printed, before the request to the peer is started.
  pub announce : Result Bytes → (Peer → Started) → List Peer → Node → Result (List Started)
  announce tag rpc [] n = ok []
  announce tag rpc (p ∷ peers) n = do
    from ← fmt_addr n.addr
    name ← tag
    to ← fmt_addr (n.memory.at p.addr).addr
    started ← announce tag rpc peers n
    ok (rpc p ∷ started)

  -- A block of the own miner is not checked.
  unfoldable pub hndl_mnr_blk : Block → Node → Result Outcome
  hndl_mnr_blk b n = do
    chain ← Blockchain.add (some b) n.chain
    safe ← if n.conf.wt_conf.has_wt then safe_block n.conf.wt_conf.safe_blk_amt chain else ok []
    sent ←
        announce (Block.name_tag b) (λ p. forward_block_rpc p (Block.serialize b))
          (PeerDb.list n.peer_db) n
    ok (record {
      node = record n { chain = chain; block_map = insert (Block.hash b) true n.block_map };
      started = safe ++ sent;
      failed = false;
    })

  -- A transaction of the own wallet is not checked.
  unfoldable pub hndl_wt_tx : Transaction → Node → Result Outcome
  hndl_wt_tx t n = do
    sent ←
        announce (Tx.name_tag t) (λ p. forward_transaction_rpc p (Tx.serialize t))
          (PeerDb.list n.peer_db) n
    ok (record {
      node = record n { tx_map = insert (Tx.hash t) true n.tx_map };
      started = (if n.conf.mnr_conf.has_mnr then mnr_hndl_tx t ∷ [] else []) ++ sent;
      failed = false;
    })

  pub connect_to_peer : Bytes → Node → Outcome
  connect_to_peer addr n = record {
    node = n;
    started =
        version_rpc none addr (record {
          version = u32 n.conf.version;
          addr_you = addr;
          addr_me = n.addr;
          best_height = u32 (Blockchain.length_of n.chain);
        })
        ∷ [];
    failed = false;
  }

  pub broadcast_addr : ℕ → Node → Outcome
  broadcast_addr now n =
      let my_addr : ProtoAddress = record { addr = n.addr; last_seen = u32 now } in
      record {
        node = n;
        started = map (λ p. send_addresses_rpc p (my_addr ∷ [])) (PeerDb.list n.peer_db);
        failed = false;
      }

  -- The answers of the peers in the order of their arrival: the first of the longest is kept.
  pub longest : Option (List Bytes) → List (Option (List Bytes)) → Option (List Bytes)
  longest best [] = best
  longest best (none ∷ answers) = longest best answers
  longest none (some hashes ∷ answers) = longest (some hashes) answers
  longest (some best) (some hashes ∷ answers) =
      longest (some (if ltb (length best) (length hashes) then hashes else best)) answers

  -- The miner of a node checks its pool against a block; without a miner this reads through nil.
  chk_miner : Block → Node → Result Node
  chk_miner b n = do m ← deref n.mnr; ok (record n { mnr = some (Miner.hndl_chk_blk b m).0 })

  -- The loop of `Bootstrap`. `fetch` is the peer's answer to a request for a block; an error is
  -- dropped, and the answer is then nil.
  pub fetch_all : (Bytes → Option (Option Proto.Block)) → Bool → List Bytes → Node → Result Node
  fetch_all fetch chk_orf [] n = ok n
  fetch_all fetch chk_orf (h ∷ hashes) n = do
    answer ← deref (fetch h)
    pb ← deref answer
    b ← Block.deserialize pb
    chain ← Blockchain.add (some b) n.chain
    let n' = record n { chain = chain; block_map = insert (Block.hash b) true n.block_map }
    n'' ← if chk_orf then chk_miner b n' else ok n'
    fetch_all fetch chk_orf hashes n''

  pub bootstrap :
      List (Option (List Bytes)) → (Bytes → Option (Option Proto.Block)) → Node → Result Outcome
  bootstrap answers fetch n = do
    own ← fmt_addr n.addr
    tag ← Block.name_tag (Blockchain.block n.chain.last_block)
    elim (PeerDb.list n.peer_db) [
      | [] ↦ ok (unchanged n true)
      | p ∷ peers ↦ elim (longest none answers) [
        | none ↦ ok (unchanged n true)
        | some hashes ↦ do
          n' ← fetch_all fetch (leb (length hashes) 2) hashes n
          ok (unchanged n' false)
      ]
    ]

  pub start_miner : Node → Result (Node × List Sent)
  start_miner n = do
    m ← deref n.mnr
    let (m', sent) = Miner.start_miner m
    ok (record n { mnr = some m' }, sent)
