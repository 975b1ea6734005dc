-- ===== src/Blockchain/Invariant.antt =====
-- The tree of blocks: what `New` makes and `Add` keeps.
use csci1951l_cryptocurrency.Prelude.{
  ℕ, ◌+◌, ◌≤◌, true, false, Option, none, some, ◌≡◌, refl, sym, subst, ap, arith, ◌↔◌, ltb,
  if◌then◌else◌, ◌⊎◌, inl, inr,
}
use csci1951l_cryptocurrency.Prelude.Result.{ok, panic, deref, >>=-eq-ok, deref-eq-ok, ok-injective}
use csci1951l_cryptocurrency.Text.{Bytes}
use csci1951l_cryptocurrency.Text.Equality.{beq, beq_iff}
use csci1951l_cryptocurrency.Dict.{Dict, lookup, contains, insert}
use csci1951l_cryptocurrency.Dict.Laws.{lookup-insert, lookup-insert_self}
use csci1951l_cryptocurrency.Crypto.{Crypto}
use csci1951l_cryptocurrency.Block
use csci1951l_cryptocurrency.Block.{Block}
use csci1951l_cryptocurrency.Blockchain.Config.{Config}
use csci1951l_cryptocurrency.Blockchain.{
  Blockchain, BlockchainNode, root, child, block, depth, utxo_ref, genesis_block, append_to, add,
  new,
}

module _ ⦃crypto : Crypto⦄ where
  -- A node's depth counts the nodes before it, its block names the hash of the block before it, and
  -- it refers to the map at `r` like every node before it.
  abbrev pub IsChain : ℕ → BlockchainNode → Type 0
  IsChain r (root b s d) = (d ≡ 0) × (s ≡ r)
  IsChain r (child b p s d) =
      (d ≡ depth p + 1) × (s ≡ r) × (b.hdr.prv_blk_hsh ≡ Block.hash (block p)) × IsChain r p

  -- A node under a key: the key is its block's hash, and it is no deeper than `top`.
  pub record IsEntry (top : ℕ) (k : Bytes) (n : BlockchainNode) : Type 0 where
    pub keyed : k ≡ Block.hash (block n)
    pub chain : IsChain 0 n
    pub shallow : depth n ≤ top

  -- Every entry of the tree is such a node, and the last block is in the tree and deepest.
  pub record IsTree (bc : Blockchain) : Type 0 where
    pub entry :
        (k : Bytes) (n : BlockchainNode)
        → lookup k bc.blocks ≡ some n
        → IsEntry (depth bc.last_block) k n
    pub last_chain : IsChain 0 bc.last_block
    pub last_known : contains (Block.hash (block bc.last_block)) bc.blocks ≡ true

  pub IsChain-ref : {r : ℕ} (n : BlockchainNode) → IsChain r n → utxo_ref n ≡ r
  IsChain-ref (root b s d) h = h.1
  IsChain-ref (child b p s d) h = h.1

  contains-insert :
      (k j : Bytes) (n : BlockchainNode) (d : Dict BlockchainNode)
      → contains j (insert k n d) ≡ (if beq k j then true else contains j d)
  unfolding contains
  contains-insert k j n d = ground (arith, lookup-insert k j n d)

  -- A new blockchain is a tree of the genesis block alone.
  pub new-IsTree : (conf : Config) → IsTree (new conf)
  unfolding new lookup contains
  new-IsTree conf =
      let h = Block.hash (genesis_block conf) in
      record {
        entry = λ k n e. record {
          keyed = ground (arith, beq_iff h k);
          chain = ground arith;
          shallow = ground arith;
        };
        last_chain = (refl, refl);
        last_known = ground (arith, beq_iff h h);
      }

  module _ (b : Block) (prev : BlockchainNode) (bc : Blockchain) where
    -- The node that `Add` makes for the block.
    abbrev pub new_block : BlockchainNode
    new_block = child b prev (utxo_ref prev) (depth prev + 1)

    depth-append_to :
        (depth bc.last_block ≤ depth (append_to b prev bc).last_block)
        × (depth prev + 1 ≤ depth (append_to b prev bc).last_block)
    unfolding append_to
    depth-append_to = ground arith

    pub last-append_to :
        ((append_to b prev bc).last_block ≡ bc.last_block)
        ⊎ ((append_to b prev bc).last_block ≡ new_block)
    unfolding append_to
    last-append_to = ground arith

    -- What a key of the new tree leads to.
    pub lookup-append_to :
        (k : Bytes) (n : BlockchainNode)
        → lookup k (append_to b prev bc).blocks ≡ some n
        → ((Block.hash b ≡ k) × (new_block ≡ n)) ⊎ (lookup k bc.blocks ≡ some n)
    unfolding append_to
    lookup-append_to k n e =
        ground (arith, beq_iff (Block.hash b) k, lookup-insert (Block.hash b) k new_block bc.blocks)

    contains-append_to :
        (k : Bytes)
        → (contains k bc.blocks ≡ true) ⊎ (k ≡ Block.hash b)
        → contains k (append_to b prev bc).blocks ≡ true
    unfolding append_to
    contains-append_to k h =
        ground
          (arith, beq_iff (Block.hash b) k, contains-insert (Block.hash b) k new_block bc.blocks)

    module _ (v : IsTree bc) (found : lookup b.hdr.prv_blk_hsh bc.blocks ≡ some prev) where
      new_block-IsChain : IsChain 0 new_block
      new_block-IsChain =
          let p = v.entry b.hdr.prv_blk_hsh prev found in
          (refl, IsChain-ref prev p.chain, p.keyed, p.chain)

      append_to-IsEntry :
          (k : Bytes) (n : BlockchainNode)
          → lookup k (append_to b prev bc).blocks ≡ some n
          → IsEntry (depth (append_to b prev bc).last_block) k n
      append_to-IsEntry k n e = elim (lookup-append_to k n e) [
        | inl (key, is_new) ↦
            subst (IsEntry _ k) is_new
              (record { keyed = sym key; chain = new_block-IsChain; shallow = depth-append_to.1 })
        | inr old ↦
            let w = v.entry k n old in
            record {
              keyed = w.keyed;
              chain = w.chain;
              shallow = omega (arith, depth-append_to.0, w.shallow);
            }
      ]

      append_to-IsTree : IsTree (append_to b prev bc)
      append_to-IsTree = elim last-append_to [
        | inl old ↦ record {
          entry = append_to-IsEntry;
          last_chain = subst (IsChain 0) (sym old) v.last_chain;
          last_known = contains-append_to _ (
              inl (
                subst (λ n. contains (Block.hash (block n)) bc.blocks ≡ true) (sym old)
                  v.last_known));
        }
        | inr is_new ↦ record {
          entry = append_to-IsEntry;
          last_chain = subst (IsChain 0) (sym is_new) new_block-IsChain;
          last_known = contains-append_to _ (inr (ap (λ n. Block.hash (block n)) is_new));
        }
      ]

  -- A block after the last one is the last one.
  pub append_to-last :
      (b : Block) (bc : Blockchain)
      → (append_to b bc.last_block bc).last_block ≡ new_block b bc.last_block bc
  unfolding append_to
  append_to-last b bc =
      let deeper : ltb (depth bc.last_block) (depth bc.last_block + 1) ≡ true = ground arith in
      rw deeper refl

  pub add_found :
      (b : Block) (prev : BlockchainNode) (bc : Blockchain)
      → lookup b.hdr.prv_blk_hsh bc.blocks ≡ some prev
      → add (some b) bc ≡ ok (append_to b prev bc)
  unfolding add
  add_found b prev bc found = rw found

  -- `Add` fails only at a block whose previous block is not known; any other it appends.
  pub add_cases :
      (b : Block) (bc bc' : Blockchain)
      → add (some b) bc ≡ ok bc'
      → (prev : BlockchainNode) × (lookup b.hdr.prv_blk_hsh bc.blocks ≡ some prev)
        × (append_to b prev bc ≡ bc')
  unfolding add
  add_cases b bc bc' e =
      let (prev, found, is_new) = >>=-eq-ok (deref (lookup b.hdr.prv_blk_hsh bc.blocks)) _ e in
      (prev, deref-eq-ok _ found, ok-injective is_new)

  -- A block after a known one becomes a node of the tree.
  pub add_known :
      (b : Block) (bc : Blockchain) (prev : BlockchainNode)
      → lookup b.hdr.prv_blk_hsh bc.blocks ≡ some prev
      → (bc' : Blockchain) × (add (some b) bc ≡ ok bc')
        × (lookup (Block.hash b) bc'.blocks ≡ some (child b prev (utxo_ref prev) (depth prev + 1)))
  unfolding add append_to
  add_known b bc prev found =
      (append_to b prev bc, rw found, lookup-insert_self (Block.hash b) _ bc.blocks)

  -- Adding a block, where it does not panic, keeps the tree.
  pub add-IsTree :
      (b : Option Block) (bc bc' : Blockchain) → IsTree bc → add b bc ≡ ok bc' → IsTree bc'
  unfolding add
  add-IsTree none bc bc' v e = subst IsTree (ok-injective e) v
  add-IsTree (some b) bc bc' v e =
      let (prev, found, is_new) = add_cases b bc bc' e in
      subst IsTree is_new (append_to-IsTree b prev bc v found)

  -- Adding panics exactly at a block whose previous block is not in the tree.
  pub add_panics :
      (b : Block) (bc : Blockchain)
      → (add (some b) bc ≡ panic) ↔ (contains b.hdr.prv_blk_hsh bc.blocks ≡ false)
  unfolding add contains
  add_panics b bc = ground arith
