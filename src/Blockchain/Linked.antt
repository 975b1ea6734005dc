-- ===== src/Blockchain/Linked.antt =====
-- The blocks between two nodes of a branch, and the links that `Add` follows.
use mathlib.Core.List.{append_assoc, append-nil}
use csci1951l_cryptocurrency.Prelude.{
  ◌≤◌, arith, length, length-append, drop, ltb, ℕ, zero, suc, List, [], ◌∷◌, ◌++◌, ◌≡◌, refl, sym,
  ap, ◌∙◌, arith, take, Bool-cases, inl, inr,
}
use csci1951l_cryptocurrency.Prelude.Slices.{
  take_all, drop_all, drop_nil, take-nil, take-append_one, drop-append,
}
use csci1951l_cryptocurrency.Text.{Bytes}
use csci1951l_cryptocurrency.Crypto.{Crypto}
use csci1951l_cryptocurrency.Block
use csci1951l_cryptocurrency.Block.{Block}
use csci1951l_cryptocurrency.Blockchain.{BlockchainNode, child, block}
use csci1951l_cryptocurrency.Blockchain.Invariant.{IsChain}
use csci1951l_cryptocurrency.Blockchain.MainChain.{branch}

-- The blocks that lead from a node, which is left out, to a later node of its branch.
pub data Follows (m : BlockchainNode) : List Block → BlockchainNode → Type 0 where
  here : Follows m [] m
  next :
      {l : List Block} {p : BlockchainNode}
      → Follows m l p
      → (b : Block) (r d : ℕ) → Follows m (l ++ b ∷ []) (child b p r d)

pub branch-Follows :
    {m n : BlockchainNode} {l : List Block} → Follows m l n → branch n ≡ branch m ++ l
unfolding branch
branch-Follows here = sym (append-nil _)
branch-Follows {m = m} (next {l = l} {p = p} f b r d) =
    ap (λ t. t ++ b ∷ []) (branch-Follows f) ∙ append_assoc (branch m) l (b ∷ [])

-- The way can be left after its first `k` blocks.
pub Follows-split :
    {m n : BlockchainNode} {l : List Block} (k : ℕ)
    → Follows m l n
    → (c : BlockchainNode) × Follows m (take k l) c × Follows c (drop k l) n
Follows-split {m = m} k here = (m, rw (take-nil k) here, rw (drop_nil k) here)
Follows-split {m = m} k (next {l = l} {p = p} f b r d) = elim (Bool-cases (ltb (length l) k)) [
  | inl long ↦
      let all : length (l ++ b ∷ []) ≤ k = ground (arith, length-append l (b ∷ [])) in
      (
        child b p r d,
        rw (take_all k (l ++ b ∷ []) all) (next f b r d),
        rw (drop_all k (l ++ b ∷ []) all) here,
      )
  | inr short ↦
      let (c, before, behind) = Follows-split k f in
      let inside : k ≤ length l = ground arith in
      (
        c,
        rw (take-append_one k l b, short, append-nil) before,
        rw (drop-append k l (b ∷ []) inside) (next behind b r d),
      )
]

module _ ⦃crypto : Crypto⦄ where
  -- Every block names the hash of the one before it, and the first names `h`.
  abbrev pub IsLinked : Bytes → List Block → Type 0
  IsLinked h [] = Unit
  IsLinked h (b ∷ l) = (b.hdr.prv_blk_hsh ≡ h) × IsLinked (Block.hash b) l

  -- The hash that a block after these has to name.
  abbrev pub end_hash : Bytes → List Block → Bytes
  end_hash h [] = h
  end_hash h (b ∷ l) = end_hash (Block.hash b) l

  end_hash-append :
      (h : Bytes) (l : List Block) (b : Block) → end_hash h (l ++ b ∷ []) ≡ Block.hash b
  end_hash-append h [] b = refl
  end_hash-append h (c ∷ l) b = end_hash-append (Block.hash c) l b

  IsLinked-append :
      (h : Bytes) (l : List Block) (b : Block)
      → IsLinked h l
      → b.hdr.prv_blk_hsh ≡ end_hash h l
      → IsLinked h (l ++ b ∷ [])
  IsLinked-append h [] b all e = (e, tt)
  IsLinked-append h (c ∷ l) b all e = (all.0, IsLinked-append (Block.hash c) l b all.1 e)

  pub IsLinked-take : (k : ℕ) (h : Bytes) (l : List Block) → IsLinked h l → IsLinked h (take k l)
  IsLinked-take zero h l all = tt
  IsLinked-take (suc k) h [] all = tt
  IsLinked-take (suc k) h (b ∷ l) all = (all.0, IsLinked-take k (Block.hash b) l all.1)

  pub end_hash-Follows :
      {m n : BlockchainNode} {l : List Block}
      → Follows m l n
      → end_hash (Block.hash (block m)) l ≡ Block.hash (block n)
  end_hash-Follows here = refl
  end_hash-Follows (next {l = l} f b r d) = end_hash-append _ l b

  pub IsLinked-Follows :
      {m n : BlockchainNode} {l : List Block} (r : ℕ)
      → Follows m l n
      → IsChain r n
      → IsLinked (Block.hash (block m)) l
  IsLinked-Follows r here h = tt
  IsLinked-Follows r (next {l = l} f b s d) h =
      IsLinked-append _ l b (IsLinked-Follows r f h.3) (h.2 ∙ sym (end_hash-Follows f))

  pub IsChain-Follows :
      {m n : BlockchainNode} {l : List Block} (r : ℕ) → Follows m l n → IsChain r n → IsChain r m
  IsChain-Follows r here h = h
  IsChain-Follows r (next f b s d) h = IsChain-Follows r f h.3
