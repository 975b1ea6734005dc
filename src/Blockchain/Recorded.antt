-- ===== src/Blockchain/Recorded.antt =====
-- `Add`, `Get` and `IndexOf` on trees in which every node is found under the hash of its block.
use mathlib.Core.Option.{some-injective, none-ne-some}
use csci1951l_cryptocurrency.Prelude.{
  arith, ℕ, zero, suc, List, [], ◌∷◌, false, some, ◌≡◌, sym, subst, arith, take, All, All-append,
  Bool-cases, inl, inr,
}
use csci1951l_cryptocurrency.Prelude.Result.{ok}
use csci1951l_cryptocurrency.Text.{Bytes}
use csci1951l_cryptocurrency.Text.Equality.{beq, beq_iff, beq_refl}
use csci1951l_cryptocurrency.Dict.{Dict, lookup, contains, insert}
use csci1951l_cryptocurrency.Dict.Laws.{lookup-insert, lookup-insert_self}
use csci1951l_cryptocurrency.Crypto.{Crypto}
use csci1951l_cryptocurrency.Block
use csci1951l_cryptocurrency.Block.{Block}
use csci1951l_cryptocurrency.Blockchain.Config.{Config}
use csci1951l_cryptocurrency.Blockchain.{
  Blockchain, BlockchainNode, root, child, block, get, append_to, add, new, genesis_block,
}
use csci1951l_cryptocurrency.Blockchain.Invariant.{
  add_cases, new_block, lookup-append_to, last-append_to,
}
use csci1951l_cryptocurrency.Blockchain.Linked.{Follows, here, next}

module _ ⦃crypto : Crypto⦄ where
  -- A node and all before it are found under the hashes of their blocks.
  abbrev pub IsKept : Dict BlockchainNode → BlockchainNode → Type 0
  IsKept t (root b r d) = lookup (Block.hash b) t ≡ some (root b r d)
  IsKept t (child b p r d) = (lookup (Block.hash b) t ≡ some (child b p r d)) × IsKept t p

  pub record IsRecorded (bc : Blockchain) : Type 0 where
    pub entry : (k : Bytes) (n : BlockchainNode) → lookup k bc.blocks ≡ some n → IsKept bc.blocks n
    pub last : IsKept bc.blocks bc.last_block

  pub lookup-IsKept :
      (t : Dict BlockchainNode) (n : BlockchainNode)
      → IsKept t n
      → lookup (Block.hash (block n)) t ≡ some n
  lookup-IsKept t (root b r d) k = k
  lookup-IsKept t (child b p r d) k = k.0

  pub IsKept-Follows :
      {m n : BlockchainNode} {l : List Block} (t : Dict BlockchainNode)
      → Follows m l n
      → IsKept t n
      → IsKept t m
  IsKept-Follows t here k = k
  IsKept-Follows t (next f b r d) k = IsKept-Follows t f k.1

  -- `Get` finds each of the blocks under its hash.
  abbrev pub AreFound : Blockchain → List Block → Type 0
  AreFound bc = All (λ b. get (Block.hash b) bc ≡ ok b)

  pub AreFound-Follows :
      {m n : BlockchainNode} {l : List Block} (bc : Blockchain)
      → Follows m l n
      → IsKept bc.blocks n
      → AreFound bc l
  unfolding get
  AreFound-Follows bc here k = tt
  AreFound-Follows bc (next {l = l} f b r d) k =
      All-append _ l (b ∷ []) (AreFound-Follows bc f k.1) (rw k.0, tt)

  pub AreFound-take :
      (k : ℕ) (bc : Blockchain) (l : List Block) → AreFound bc l → AreFound bc (take k l)
  AreFound-take zero bc l all = tt
  AreFound-take (suc k) bc [] all = tt
  AreFound-take (suc k) bc (b ∷ l) all = (all.0, AreFound-take k bc l all.1)

  IsKept-insert :
      (h : Bytes) (m : BlockchainNode) (t : Dict BlockchainNode) (n : BlockchainNode)
      → contains h t ≡ false
      → IsKept t n
      → IsKept (insert h m t) n
  unfolding contains
  IsKept-insert h m t (root b r d) fresh k =
      ground (arith, beq_iff h (Block.hash b), lookup-insert h (Block.hash b) m t)
  IsKept-insert h m t (child b p r d) fresh k = (
    ground (arith, k.0, beq_iff h (Block.hash b), lookup-insert h (Block.hash b) m t),
    IsKept-insert h m t p fresh k.1,
  )

  -- In a new blockchain the genesis block is found.
  pub new-IsRecorded : (conf : Config) → IsRecorded (new conf)
  unfolding new lookup
  new-IsRecorded conf =
      let h = Block.hash (genesis_block conf) in
      record {
        entry = λ k n e. elim (Bool-cases (beq h k)) [
          | inl same ↦
              subst (IsKept (new conf).blocks) (some-injective _ _ (rw same at e)) (rw (beq_refl h))
          | inr other ↦ absurd (none-ne-some n (rw other at e))
        ];
        last = rw (beq_refl h);
      }

  module _ (b : Block) (prev : BlockchainNode) (bc : Blockchain) where
    new_block-IsKept :
        contains (Block.hash b) bc.blocks ≡ false
        → IsKept bc.blocks prev
        → IsKept (append_to b prev bc).blocks (new_block b prev bc)
    unfolding append_to
    new_block-IsKept fresh k = (
      lookup-insert_self (Block.hash b) (new_block b prev bc) bc.blocks,
      IsKept-insert (Block.hash b) (new_block b prev bc) bc.blocks prev fresh k,
    )

    old-IsKept :
        (n : BlockchainNode)
        → contains (Block.hash b) bc.blocks ≡ false
        → IsKept bc.blocks n
        → IsKept (append_to b prev bc).blocks n
    unfolding append_to
    old-IsKept n fresh k = IsKept-insert (Block.hash b) (new_block b prev bc) bc.blocks n fresh k

    append_to-IsRecorded :
        IsRecorded bc
        → contains (Block.hash b) bc.blocks ≡ false
        → IsKept bc.blocks prev
        → IsRecorded (append_to b prev bc)
    append_to-IsRecorded v fresh before = record {
      entry = λ k n e. elim (lookup-append_to b prev bc k n e) [
        | inl (key, is_new) ↦
            subst (IsKept (append_to b prev bc).blocks) is_new (new_block-IsKept fresh before)
        | inr old ↦ old-IsKept n fresh (v.entry k n old)
      ];
      last = elim (last-append_to b prev bc) [
        | inl old ↦
            subst (IsKept (append_to b prev bc).blocks) (sym old)
              (old-IsKept bc.last_block fresh v.last)
        | inr is_new ↦
            subst (IsKept (append_to b prev bc).blocks) (sym is_new) (new_block-IsKept fresh before)
      ];
    }

  -- A block whose hash is new keeps every node where it is found.
  pub add-IsRecorded :
      (b : Block) (bc bc' : Blockchain)
      → IsRecorded bc
      → contains (Block.hash b) bc.blocks ≡ false
      → add (some b) bc ≡ ok bc'
      → IsRecorded bc'
  add-IsRecorded b bc bc' v fresh e =
      let (prev, found, is_new) = add_cases b bc bc' e in
      subst IsRecorded is_new
        (append_to-IsRecorded b prev bc v fresh (v.entry b.hdr.prv_blk_hsh prev found))
