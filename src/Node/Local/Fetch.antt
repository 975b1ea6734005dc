-- ===== src/Node/Local/Fetch.antt =====
-- The loop of `Bootstrap`, with `GetBlocks` and `GetData` at the peer that answers it.
use mathlib.Core.List.{append_assoc, append-nil}
use csci1951l_cryptocurrency.Prelude.{
  ◌+◌, List, [], ◌∷◌, ◌++◌, map, Bool, true, false, Option, none, some, ◌≡◌, refl, sym, subst, ap,
  ◌∙◌, arith, take, drop, ltb, if◌then◌else◌, Bool-cases, ◌⊎◌, inl, inr,
}
use csci1951l_cryptocurrency.Prelude.Slices.{window}
use csci1951l_cryptocurrency.Prelude.Result.{ok, panic, out_of_fuel}
use csci1951l_cryptocurrency.Text.{Bytes}
use csci1951l_cryptocurrency.Dict.{lookup, contains, insert}
use csci1951l_cryptocurrency.Dict.Laws.{lookup-insert_self}
use csci1951l_cryptocurrency.Crypto.{Crypto}
use csci1951l_cryptocurrency.Proto
use csci1951l_cryptocurrency.Block
use csci1951l_cryptocurrency.Block.{Block}
use csci1951l_cryptocurrency.Block.RoundTrip.{unmark_tx, deserialize-serialize_lem}
use csci1951l_cryptocurrency.Blockchain
use csci1951l_cryptocurrency.Blockchain.{
  Blockchain, BlockchainNode, block, depth, get, index_of, length_of, append_to,
}
use csci1951l_cryptocurrency.Blockchain.Invariant.{IsTree, new_block, add_panics, append_to-last}
use csci1951l_cryptocurrency.Blockchain.MainChain.{branch, slice_lem, list_lem}
use csci1951l_cryptocurrency.Blockchain.Linked.{IsLinked, end_hash}
use csci1951l_cryptocurrency.Blockchain.Recorded.{AreFound}
use csci1951l_cryptocurrency.Miner.{Miner, hndl_chk_blk}
use csci1951l_cryptocurrency.Node.{Node}
use csci1951l_cryptocurrency.Node.Handlers.{get_blocks, get_data}
use csci1951l_cryptocurrency.Node.Local.{chk_miner, fetch_all}

-- A block as it is read back from its message.
abbrev pub unmark_block : Block → Block
unmark_block b = record b { transactions = map unmark_tx b.transactions }

module _ ⦃crypto : Crypto⦄ where
  -- What the peer's server answers to a request for a block; a panic there is an error here.
  abbrev pub answer_of : Node → Bytes → Option (Option Proto.Block)
  answer_of s h = elim (get_data h s) [ ok pb ↦ some pb | panic ↦ none | out_of_fuel ↦ none ]

  -- `GetBlocks` answers for a known block the hashes of the blocks of the main chain that are deeper,
  -- whether or not the known one is on it: the first 499 of them.
  pub get_blocks_lem :
      (h : Bytes) (m : BlockchainNode) (s : Node)
      → IsTree s.chain
      → lookup h s.chain.blocks ≡ some m
      → get_blocks h s ≡ map Block.hash (take 499 (drop (depth m + 1) (branch s.chain.last_block)))
  unfolding get_blocks index_of length_of
  get_blocks_lem h m s v found =
      let inside : ltb (depth m) (length_of s.chain) ≡ true =
        ground (arith, (v.entry h m found).shallow) in
      rw
        (
          get_blocks,
          index_of,
          found,
          length_of,
          inside,
          slice_lem _ _ s.chain v,
          sym (list_lem s.chain v).1,
        )
        (ap (map Block.hash)
          (window (depth m + 1) (depth m + 500) 499 (branch s.chain.last_block) (omega arith)))

  -- The last block is found under its hash.
  abbrev pub IsLastFound : Blockchain → Type 0
  IsLastFound bc = lookup (Block.hash (block bc.last_block)) bc.blocks ≡ some bc.last_block

  append_to-IsLastFound : (b : Block) (bc : Blockchain) → IsLastFound (append_to b bc.last_block bc)
  unfolding append_to
  append_to-IsLastFound b bc =
      subst (λ m. lookup (Block.hash (block m)) (append_to b bc.last_block bc).blocks ≡ some m)
        (sym (append_to-last b bc)) (lookup-insert_self (Block.hash b) _ bc.blocks)

  -- A node after a block that it added to its chain.
  abbrev heard : Block → Blockchain → Node → Node
  heard b chain n = record n { chain = chain; block_map = insert (Block.hash b) true n.block_map }

  -- The miner is there.
  abbrev pub HasMiner : Node → Type 0
  HasMiner n = (m : Miner) × (n.mnr ≡ some m)

  -- What the fetched blocks leave as it is.
  pub record IsSameBut (n n' : Node) : Type 0 where
    pub addr : n'.addr ≡ n.addr
    pub peer_db : n'.peer_db ≡ n.peer_db
    pub manned : HasMiner n → HasMiner n'

  -- The node after blocks that follow its last one: its main chain has them at its end.
  pub record HasFetched (bs : List Block) (n n' : Node) : Type 0 where
    pub grown : branch n'.chain.last_block ≡ branch n.chain.last_block ++ map unmark_block bs
    pub found : IsLastFound n'.chain
    pub ends :
        end_hash (Block.hash (block n.chain.last_block)) bs ≡ Block.hash (block n'.chain.last_block)
    pub rest : IsSameBut n n'

  same_node : (n : Node) → IsSameBut n n
  same_node n = record { addr = refl; peer_db = refl; manned = λ has. has }

  module _ (s : Node) (chk_orf : Bool) where
    -- The miner is there if it is asked.
    abbrev pub IsAsked : Node → Type 0
    IsAsked n = (chk_orf ≡ false) ⊎ HasMiner n

    -- A round of the loop in which nothing panics.
    fetch_step :
        (fetch : Bytes → Option (Option Proto.Block)) (h : Bytes) (hs : List Bytes)
        (pb : Proto.Block) (b : Block) (chain : Blockchain) (n n' : Node)
        → fetch h ≡ some (some pb)
        → Block.deserialize pb ≡ ok b
        → Blockchain.add (some b) n.chain ≡ ok chain
        → (if chk_orf then chk_miner b (heard b chain n) else ok (heard b chain n)) ≡ ok n'
        → fetch_all fetch chk_orf (h ∷ hs) n ≡ fetch_all fetch chk_orf hs n'
    unfolding fetch_all
    fetch_step fetch h hs pb b chain n n' answered read added checked =
        rw (answered, read, added, checked)

    asks_miner :
        (b : Block) (n : Node)
        → IsAsked n
        → (n' : Node) × ((if chk_orf then chk_miner b n else ok n) ≡ ok n')
          × (n'.chain ≡ n.chain)
          × IsAsked n'
          × IsSameBut n n'
    unfolding chk_miner
    asks_miner b n (inl unasked) = (n, rw unasked, refl, inl unasked, same_node n)
    asks_miner b n (inr (m, has)) = elim (Bool-cases chk_orf) [
      | inl asked ↦
          let m' = (hndl_chk_blk b m).0 in
          (
            record n { mnr = some m' },
            rw (asked, has),
            refl,
            inr (m', refl),
            record { addr = refl; peer_db = refl; manned = λ has. (m', refl) },
          )
      | inr unasked ↦ (n, rw unasked, refl, inl unasked, same_node n)
    ]

    fetched :
        (b : Block) (n : Node)
        → get (Block.hash b) s.chain ≡ ok b
        → b.hdr.prv_blk_hsh ≡ Block.hash (block n.chain.last_block)
        → IsLastFound n.chain
        → IsAsked n
        → (n' : Node) × (n'.chain ≡ append_to (unmark_block b) n.chain.last_block n.chain)
          × IsAsked n'
          × IsSameBut n n'
          × ((hs : List Bytes)
              → fetch_all (answer_of s) chk_orf (Block.hash b ∷ hs) n
                ≡ fetch_all (answer_of s) chk_orf hs n')
    unfolding get_data Blockchain.add
    fetched b n found after known asked =
        let chain = append_to (unmark_block b) n.chain.last_block n.chain in
        let (n', checked, kept, asked', same) =
          asks_miner (unmark_block b) (heard (unmark_block b) chain n) asked in
        (
          n',
          kept,
          asked',
          record { addr = same.addr; peer_db = same.peer_db; manned = same.manned },
          λ hs.
              fetch_step (answer_of s) (Block.hash b) hs (Block.serialize b) (unmark_block b) chain
                n n' (rw (answer_of, found)) (deserialize-serialize_lem b) (rw (after, known))
                checked,
        )

    pub fetch_all-HasFetched :
        (bs : List Block) (n : Node)
        → AreFound s.chain bs
        → IsLinked (Block.hash (block n.chain.last_block)) bs
        → IsLastFound n.chain
        → IsAsked n
        → (n' : Node) × (fetch_all (answer_of s) chk_orf (map Block.hash bs) n ≡ ok n')
          × HasFetched bs n n'
    unfolding fetch_all Block.hash branch
    fetch_all-HasFetched [] n known linked kept asked = (
      n,
      refl,
      record { grown = sym (append-nil _); found = kept; ends = refl; rest = same_node n },
    )
    fetch_all-HasFetched (b ∷ bs) n known linked kept asked =
        let (n', chained, asked', same, ran) = fetched b n known.0 linked.0 kept asked in
        let last : n'.chain.last_block ≡ new_block (unmark_block b) n.chain.last_block n.chain =
          ap (λ (c : Blockchain). c.last_block) chained ∙ append_to-last (unmark_block b) n.chain in
        let (n'', ended, f) =
          fetch_all-HasFetched bs n' known.1 (rw last linked.1)
            (subst IsLastFound (sym chained) (append_to-IsLastFound (unmark_block b) n.chain))
            asked' in
        (
          n'',
          ran (map Block.hash bs) ∙ ended,
          record {
            grown =
                f.grown
                ∙ ap (λ m. branch m ++ map unmark_block bs) last
                ∙ append_assoc (branch n.chain.last_block) (unmark_block b ∷ [])
                    (map unmark_block bs);
            found = f.found;
            ends = ap (λ m. end_hash (Block.hash (block m)) bs) (sym last) ∙ f.ends;
            rest = record {
              addr = f.rest.addr ∙ same.addr;
              peer_db = f.rest.peer_db ∙ same.peer_db;
              manned = λ has. f.rest.manned (same.manned has);
            };
          },
        )

  -- The first block is there, but the one before it is not.
  pub fetch_all_orphan :
      (s n : Node) (chk_orf : Bool) (b : Block) (hs : List Bytes)
      → get (Block.hash b) s.chain ≡ ok b
      → contains b.hdr.prv_blk_hsh n.chain.blocks ≡ false
      → fetch_all (answer_of s) chk_orf (Block.hash b ∷ hs) n ≡ panic
  unfolding fetch_all get_data
  fetch_all_orphan s n chk_orf b hs found unknown = rw (
    answer_of,
    found,
    deserialize-serialize_lem b,
    (add_panics (unmark_block b) n.chain).1 unknown,
  )
