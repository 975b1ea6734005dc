-- ===== src/Node/Local/Sync.antt =====
-- `Bootstrap` at a node, with `GetBlocks` and `GetData` at the peer that answers it.
pub mod Tests
use Prim.Native.Nat.{min}
use csci1951l_cryptocurrency.Prelude.{
  ℕ, ◌+◌, ◌<◌, List, ◌∷◌, ◌++◌, map, false, Option, none, some, ◌≡◌, refl, sym, subst, ap, ◌∙◌,
  arith, length, length-map, length-take, take, drop, leb, ◌⊎◌, inl, inr,
}
use csci1951l_cryptocurrency.Prelude.Slices.{drop_at}
use csci1951l_cryptocurrency.Prelude.Result.{ok, panic, ◌>>=◌}
use csci1951l_cryptocurrency.Text.{Bytes}
use csci1951l_cryptocurrency.Utils.Logging.{fmt_addr}
use csci1951l_cryptocurrency.Dict.{lookup, contains}
use csci1951l_cryptocurrency.Crypto.{Crypto, IsSum256}
use csci1951l_cryptocurrency.Proto
use csci1951l_cryptocurrency.Block
use csci1951l_cryptocurrency.Block.{Block}
use csci1951l_cryptocurrency.Block.NameTag.{block_tag_returns}
use csci1951l_cryptocurrency.Blockchain.{BlockchainNode, block, depth, get}
use csci1951l_cryptocurrency.Blockchain.Invariant.{IsTree}
use csci1951l_cryptocurrency.Blockchain.MainChain.{branch, length-branch}
use csci1951l_cryptocurrency.Blockchain.Linked.{
  Follows, Follows-split, branch-Follows, end_hash, end_hash-Follows, IsLinked, IsLinked-take,
  IsLinked-Follows, IsChain-Follows,
}
use csci1951l_cryptocurrency.Blockchain.Recorded.{
  IsRecorded, lookup-IsKept, IsKept-Follows, AreFound-take, AreFound-Follows,
}
use csci1951l_cryptocurrency.Miner.{Miner}
use csci1951l_cryptocurrency.Net.PeerDb
use csci1951l_cryptocurrency.Net.PeerDb.{Peer}
use csci1951l_cryptocurrency.Node.{Node, Outcome}
use csci1951l_cryptocurrency.Node.Handlers.{unchanged, get_blocks}
use csci1951l_cryptocurrency.Node.Local.{longest, fetch_all, bootstrap}
use csci1951l_cryptocurrency.Node.Local.Longest.{IsFirstLongest, longest-IsFirstLongest}
use csci1951l_cryptocurrency.Node.Local.Fetch.{
  unmark_block, answer_of, get_blocks_lem, IsLastFound, HasMiner, IsAsked, HasFetched,
  fetch_all-HasFetched, fetch_all_orphan,
}

module _ ⦃crypto : Crypto⦄ where
  -- The node's last block is on the main chain of a peer, with these blocks after it. The peer's
  -- chain is a tree in which every node is found, and the node finds its last block.
  pub record IsBehind (n s : Node) (rest : List Block) : Type 0 where
    pub tree : IsTree s.chain
    pub recorded : IsRecorded s.chain
    pub common : BlockchainNode
    pub follows : Follows common rest s.chain.last_block
    pub same : Block.hash (block common) ≡ Block.hash (block n.chain.last_block)
    pub found : IsLastFound n.chain

  -- What the peer answers to the node's request.
  abbrev pub offer : Node → Node → List Bytes
  offer n s = get_blocks (Block.hash (block n.chain.last_block)) s

  pub offer_lem :
      (n s : Node) (rest : List Block)
      → IsBehind n s rest
      → offer n s ≡ map Block.hash (take 499 rest)
  offer_lem n s rest v =
      let k = IsKept-Follows s.chain.blocks v.follows v.recorded.last in
      let at_common =
        get_blocks_lem (Block.hash (block v.common)) v.common s v.tree
          (lookup-IsKept s.chain.blocks v.common k) in
      let behind : drop (depth v.common + 1) (branch s.chain.last_block) ≡ rest =
        rw
          (
            branch-Follows v.follows,
            sym (length-branch 0 v.common (IsChain-Follows 0 v.follows v.tree.last_chain)),
          )
          (drop_at (branch v.common) rest) in
      ap (λ h. get_blocks h s) (sym v.same)
      ∙ at_common
      ∙ ap (λ l. map Block.hash (take 499 l)) behind

  -- The loop of Bootstrap, once a list of hashes is chosen.
  bootstrap_with :
      IsSum256
      → (n : Node) (own : Bytes) (best : List Bytes) (answers : List (Option (List Bytes)))
        (fetch : Bytes → Option (Option Proto.Block)) (p : Peer) (peers : List Peer)
      → fmt_addr n.addr ≡ ok own
      → PeerDb.list n.peer_db ≡ p ∷ peers
      → longest none answers ≡ some best
      → bootstrap answers fetch n
        ≡ (fetch_all fetch (leb (length best) 2) best n >>= λ n'. ok (unchanged n' false))
  unfolding bootstrap
  bootstrap_with law n own best answers fetch p peers printed peered chosen =
      let (tag, named) = block_tag_returns law (block n.chain.last_block) in
      rw (printed, named, peered, chosen)

  many : (k r : ℕ) → k ≡ min 499 r → 2 < r → leb k 2 ≡ false
  many k r e more = ground arith

  -- What is left after the blocks that were fetched.
  pub caught_up :
      (n n' s : Node) (rest : List Block)
      → IsBehind n s rest
      → HasFetched (take 499 rest) n n'
      → IsBehind n' s (drop 499 rest)
  caught_up n n' s rest v f =
      let (c, before, behind) = Follows-split 499 v.follows in
      record {
        tree = v.tree;
        recorded = v.recorded;
        common = c;
        follows = behind;
        same = sym (end_hash-Follows before) ∙ ap (λ h. end_hash h (take 499 rest)) v.same ∙ f.ends;
        found = f.found;
      }

  -- Bootstrap where the answer of the peer is chosen.
  pub bootstrap-HasFetched :
      IsSum256
      → (n s : Node) (rest : List Block) (own : Bytes) (p : Peer) (peers : List Peer)
        (answers : List (Option (List Bytes)))
      → IsBehind n s rest
      → fmt_addr n.addr ≡ ok own
      → PeerDb.list n.peer_db ≡ p ∷ peers
      → longest none answers ≡ some (offer n s)
      → (2 < length rest) ⊎ HasMiner n
      → (n' : Node) × (bootstrap answers (answer_of s) n ≡ ok (unchanged n' false))
        × HasFetched (take 499 rest) n n'
  bootstrap-HasFetched law n s rest own p peers answers v printed peered chosen asked =
      let hashes = offer_lem n s rest v in
      let count : length (offer n s) ≡ min 499 (length rest) =
        ap length hashes ∙ length-map (take 499 rest) Block.hash ∙ length-take 499 rest in
      let asked' : IsAsked s (leb (length (offer n s)) 2) n = elim asked [
        | inl more ↦ inl (many (length (offer n s)) (length rest) count more)
        | inr has ↦ inr has
      ] in
      let (n', ran, f) =
        fetch_all-HasFetched s (leb (length (offer n s)) 2) (take 499 rest) n
          (AreFound-take 499 s.chain rest (AreFound-Follows s.chain v.follows v.recorded.last))
          (IsLinked-take 499 _ rest
            (subst (λ h. IsLinked h rest) v.same (IsLinked-Follows 0 v.follows v.tree.last_chain)))
          v.found asked' in
      (
        n',
        bootstrap_with law n own (offer n s) answers (answer_of s) p peers printed peered chosen
            ∙ ap
                (λ hs. fetch_all (answer_of s) (leb (length (offer n s)) 2) hs n >>= λ n''.
                  ok (unchanged n'' false))
                hashes
            ∙ rw ran refl,
        f,
      )

  -- A node is behind a peer, whose answer is the first of the longest that come, and the node has a
  -- miner or more than two blocks to catch up with. Then Bootstrap returns, and the node's main chain
  -- is what it was and the next blocks of the peer's, up to 499 of them, as they are read back. It is
  -- then behind the peer by the rest of them.
  pub bootstrap-follows :
      IsSum256
      → (n s : Node) (rest : List Block) (own : Bytes) (p : Peer) (peers : List Peer)
        (answers : List (Option (List Bytes)))
      → IsBehind n s rest
      → fmt_addr n.addr ≡ ok own
      → PeerDb.list n.peer_db ≡ p ∷ peers
      → IsFirstLongest (offer n s) answers
      → (2 < length rest) ⊎ ((m : Miner) × (n.mnr ≡ some m))
      → (o : Outcome) × (bootstrap answers (answer_of s) n ≡ ok o)
        × (o.failed ≡ false)
        × (branch o.node.chain.last_block
            ≡ branch n.chain.last_block ++ map unmark_block (take 499 rest))
        × IsBehind o.node s (drop 499 rest)
  bootstrap-follows law n s rest own p peers answers v printed peered first asked =
      let (n', ran, f) =
        bootstrap-HasFetched law n s rest own p peers answers v printed peered
          (longest-IsFirstLongest (offer n s) answers first) asked in
      (unchanged n' false, ran, refl, f.grown, caught_up n n' s rest v f)

  -- The last block of a node is known to a peer, but the block of the peer's main chain that is one
  -- deeper comes after a block that the node does not know. Where the peer, whose chain is a tree,
  -- finds that block and its answer is the first of the longest that come, Bootstrap panics.
  pub bootstrap_fork_panics :
      IsSum256
      → (n s : Node) (m : BlockchainNode) (b : Block) (rest : List Block) (own : Bytes) (p : Peer)
        (peers : List Peer) (answers : List (Option (List Bytes)))
      → IsTree s.chain
      → lookup (Block.hash (block n.chain.last_block)) s.chain.blocks ≡ some m
      → drop (depth m + 1) (branch s.chain.last_block) ≡ b ∷ rest
      → get (Block.hash b) s.chain ≡ ok b
      → contains b.hdr.prv_blk_hsh n.chain.blocks ≡ false
      → fmt_addr n.addr ≡ ok own
      → PeerDb.list n.peer_db ≡ p ∷ peers
      → IsFirstLongest (offer n s) answers
      → bootstrap answers (answer_of s) n ≡ panic
  bootstrap_fork_panics law n s m b rest own p peers answers tree known deeper found unknown printed
        peered first =
      let hashes : offer n s ≡ Block.hash b ∷ map Block.hash (take 498 rest) =
        get_blocks_lem _ m s tree known ∙ ap (λ l. map Block.hash (take 499 l)) deeper in
      bootstrap_with law n own (offer n s) answers (answer_of s) p peers printed peered
        (longest-IsFirstLongest (offer n s) answers first)
      ∙ ap
          (λ hs. fetch_all (answer_of s) (leb (length (offer n s)) 2) hs n >>= λ n'.
            ok (unchanged n' false))
          hashes
      ∙ ap (λ r. r >>= λ n'. ok (unchanged n' false))
          (fetch_all_orphan s n _ b (map Block.hash (take 498 rest)) found unknown)
