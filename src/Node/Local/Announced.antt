-- ===== src/Node/Local/Announced.antt =====
-- A block of a node's own miner, at the node and at another to which it is sent.
pub mod Tests
use csci1951l_cryptocurrency.Prelude.{
  ℕ, ◌+◌, ◌<◌, ◌≤◌, List, [], ◌∷◌, ◌++◌, map, Bool, true, false, some, ◌≡◌, refl, sym, ap, ◌∙◌,
  arith, All, if◌then◌else◌, inl, inr, Bool-cases,
}
use csci1951l_cryptocurrency.Prelude.Word.{u32_mod}
use csci1951l_cryptocurrency.Prelude.Result.{Result, ok}
use csci1951l_cryptocurrency.Text.{Bytes}
use csci1951l_cryptocurrency.Utils.Logging.{fmt_addr}
use csci1951l_cryptocurrency.Dict.{lookup, insert}
use csci1951l_cryptocurrency.Crypto.{Crypto, IsSum256}
use csci1951l_cryptocurrency.Tx.Sums.{sum_sizes}
use csci1951l_cryptocurrency.Block
use csci1951l_cryptocurrency.Block.{Block}
use csci1951l_cryptocurrency.Block.NameTag.{block_tag_returns}
use csci1951l_cryptocurrency.Blockchain.{Blockchain, BlockchainNode, append_to, chk_chains_utxo}
use csci1951l_cryptocurrency.Blockchain.Invariant.{add_found, append_to-last}
use csci1951l_cryptocurrency.Blockchain.MainChain.{branch}
use csci1951l_cryptocurrency.Miner.{Miner, Sent, send_blk, reward_of, new_mining_pool, mine_round}
use csci1951l_cryptocurrency.Miner.Mined.{mine_round_lem}
use csci1951l_cryptocurrency.Miner.Work.{in_order}
use csci1951l_cryptocurrency.Net.Address.{Memory}
use csci1951l_cryptocurrency.Net.PeerDb
use csci1951l_cryptocurrency.Net.PeerDb.{Peer}
use csci1951l_cryptocurrency.Node.{Node, Outcome, Started, forward_block_rpc}
use csci1951l_cryptocurrency.Node.Validation.Transactions.{IsSpendable}
use csci1951l_cryptocurrency.Node.Handlers.{seen, safe_block, forward_block}
use csci1951l_cryptocurrency.Node.Handlers.Mined.{HasSafeAmt, safe_returns, mine_round-IsTakenUp}
use csci1951l_cryptocurrency.Node.Local.{announce, hndl_mnr_blk}

-- The peer's address has a text in the messages.
pub record IsPrintable (m : Memory) (p : Peer) : Type 0 where
  pub text : Bytes
  pub printed : fmt_addr (m.at p.addr).addr ≡ ok text

module _ ⦃crypto : Crypto⦄ where
  -- Where all has a text, what is announced goes to each peer.
  announce_returns :
      (tag : Result Bytes) (name own : Bytes) (rpc : Peer → Started) (peers : List Peer) (n : Node)
      → tag ≡ ok name
      → fmt_addr n.addr ≡ ok own
      → All (IsPrintable n.memory) peers
      → announce tag rpc peers n ≡ ok (map rpc peers)
  unfolding announce
  announce_returns tag name own rpc [] n named from all = refl
  announce_returns tag name own rpc (p ∷ peers) n named from all =
      rw (from, named, all.0.printed, announce_returns tag name own rpc peers n named from all.1)

  -- The requests that pass a block on, one to each peer.
  abbrev pub block_relays : Block → Node → List Started
  block_relays b n = map (λ p. forward_block_rpc p (Block.serialize b)) (PeerDb.list n.peer_db)

  -- A block after a node's last one becomes its last one.
  branch-append_to :
      (b : Block) (bc bc' : Blockchain)
      → bc' ≡ append_to b bc.last_block bc
      → branch bc'.last_block ≡ branch bc.last_block ++ b ∷ []
  unfolding branch
  branch-append_to b bc bc' e =
      ap (λ (c : Blockchain). branch c.last_block) e ∙ ap branch (append_to-last b bc)

  -- What a node does with a block of its own miner after its last block.
  pub record IsAnnounced (b : Block) (n : Node) (o : Outcome) : Type 0 where
    pub grown : branch o.node.chain.last_block ≡ branch n.chain.last_block ++ b ∷ []
    pub own : List Started
    pub relayed : o.started ≡ own ++ block_relays b n

  hndl_mnr_blk-IsAnnounced :
      (b : Block) (n : Node) (text : Bytes)
      → IsSum256
      → HasSafeAmt n
      → lookup b.hdr.prv_blk_hsh n.chain.blocks ≡ some n.chain.last_block
      → fmt_addr n.addr ≡ ok text
      → All (IsPrintable n.memory) (PeerDb.list n.peer_db)
      → (o : Outcome) × (hndl_mnr_blk b n ≡ ok o) × IsAnnounced b n o
  unfolding hndl_mnr_blk
  hndl_mnr_blk-IsAnnounced b n text law amount known printed all =
      let (tag, named) = block_tag_returns law b in
      let chain = append_to b n.chain.last_block n.chain in
      let (to_wallet, returns) =
        safe_returns n.conf.wt_conf.has_wt n.conf.wt_conf.safe_blk_amt chain amount in
      (
        record {
          node = record n { chain = chain; block_map = insert (Block.hash b) true n.block_map };
          started = to_wallet ++ block_relays b n;
          failed = false;
        },
        rw (
          add_found b n.chain.last_block n.chain known,
          returns,
          announce_returns (Block.name_tag b) tag text
              (λ p. forward_block_rpc p (Block.serialize b)) (PeerDb.list n.peer_db) n named printed
              all,
        ),
        record { grown = branch-append_to b n.chain chain refl; own = to_wallet; relayed = refl },
      )

  -- A miner's round sends a block that has a reward, at a node and another that has not seen the
  -- block, and the block before it is the last one of both. Where the conditions hold under which the
  -- other accepts it, the wallet of each, if it has one, waits for at least one block, and the
  -- addresses of the first and of its peers have texts in the messages: the
  -- node takes the block up and starts a request with it to each of its peers, and the other, when it
  -- gets the message, takes it up too. The main chain of each is then its own with the block at its end.
  pub mine_round-agrees :
      (done : ℕ → Bool) (m m' : Miner) (b : Block) (sent : List Sent) (a n : Node) (text : Bytes)
      → IsSum256
      → mine_round done m ≡ ok (m', send_blk b ∷ sent)
      → All (IsSpendable n) (new_mining_pool m)
      → chk_chains_utxo (new_mining_pool m) m.prv_hsh n.chain ≡ true
      → 100 + sum_sizes (in_order m.tx_p.tx_q) < u32_mod
      → 100 < m.conf.blk_sz
      → m.conf.blk_sz ≤ n.conf.mx_blk_sz
      → n.conf.mx_blk_sz < u32_mod
      → 0 < reward_of (new_mining_pool m) m
      → lookup m.prv_hsh a.chain.blocks ≡ some a.chain.last_block
      → lookup m.prv_hsh n.chain.blocks ≡ some n.chain.last_block
      → seen (Block.hash b) n.block_map ≡ false
      → HasSafeAmt a
      → HasSafeAmt n
      → fmt_addr a.addr ≡ ok text
      → All (IsPrintable a.memory) (PeerDb.list a.peer_db)
      → (oa : Outcome) × (on : Outcome) × (hndl_mnr_blk b a ≡ ok oa)
        × IsAnnounced b a oa
        × (forward_block (Block.serialize b) n ≡ ok on)
        × (branch on.node.chain.last_block ≡ branch n.chain.last_block ++ b ∷ [])
  mine_round-agrees done m m' b sent a n text law e spendable unspent small room size word pays at_a
        at_n fresh amount_a amount_n printed all =
      let (mined, linked) = mine_round_lem done m m' b sent e in
      let (oa, taken_a, how_a) =
        hndl_mnr_blk-IsAnnounced b a text law amount_a
          (ap (λ h. lookup h a.chain.blocks) mined.after ∙ at_a) printed all in
      let (on, taken_n, how_n) =
        mine_round-IsTakenUp done m m' b sent n n.chain.last_block e spendable unspent small room
          size word pays at_n fresh amount_n in
      (oa, on, taken_a, how_a, taken_n, branch-append_to b n.chain on.node.chain how_n.chained)
