-- ===== src/Blockchain/MainChain.antt =====
-- `List` and `Slice` read the main chain.
use mathlib.Core.List.{append_assoc, append-nil}
use native.Mathlib.Numerals.{add-one}
use csci1951l_cryptocurrency.Prelude.{
  ℕ, zero, suc, ◌+◌, ◌≤◌, ◌<◌, List, [], ◌∷◌, ◌++◌, true, false, some, ◌≡◌, refl, ◌∙◌, arith,
  length, take, drop, ltb, if◌then◌else◌, length-append, Bool-cases, inl, inr,
}
use csci1951l_cryptocurrency.Prelude.Int.{ℤ, pos, negsuc, pos_part, leb_ℤ, ltb_ℤ}
use csci1951l_cryptocurrency.Prelude.Slices.{
  take_all, drop_all, take-nil, take-append_one, drop-append, length-take_le,
}
use csci1951l_cryptocurrency.Prelude.Result.{ok}
use csci1951l_cryptocurrency.Crypto.{Crypto}
use csci1951l_cryptocurrency.Block.{Block}
use csci1951l_cryptocurrency.Blockchain.{
  Blockchain, BlockchainNode, root, child, depth, list_loop, list, slice_loop, slice, length_of,
}
use csci1951l_cryptocurrency.Blockchain.Invariant.{IsChain, IsTree}

-- The blocks from the genesis block to a node.
unfoldable pub branch : BlockchainNode → List Block
branch (root b r d) = b ∷ []
branch (child b p r d) = branch p ++ b ∷ []

module _ ⦃crypto : Crypto⦄ where
  pub length-branch : (r : ℕ) (n : BlockchainNode) → IsChain r n → length (branch n) ≡ depth n + 1
  unfolding branch
  length-branch r (root b s d) h = omega arith
  length-branch r (child b p s d) h =
      omega (arith, length-append (branch p) (b ∷ []), length-branch r p h.3)

  list_loop-branch :
      (r k : ℕ) (n : BlockchainNode) (acc : List Block)
      → IsChain r n
      → k ≡ depth n
      → list_loop (suc k) (some n) acc ≡ ok (branch n ++ acc)
  unfolding list_loop branch
  list_loop-branch r zero (root b s d) acc h e = refl
  list_loop-branch r (suc k) (root b s d) acc h e = absurd (omega arith)
  list_loop-branch r zero (child b p s d) acc h e = absurd (omega arith)
  list_loop-branch r (suc k) (child b p s d) acc h e =
      rw append_assoc (list_loop-branch r k p (b ∷ acc) h.3 (omega arith))

  -- On a tree `List` returns, and gives the blocks of the main chain from the genesis block on, as
  -- many as `Length` says.
  pub list_lem :
      (bc : Blockchain)
      → IsTree bc
      → (list bc ≡ ok (branch bc.last_block)) × (length (branch bc.last_block) ≡ length_of bc)
  unfolding list length_of
  list_lem bc v =
      let n = bc.last_block in
      (
        rw (add-one (depth n))
            (rw (append-nil (branch n)) at (list_loop-branch 0 (depth n) n [] v.last_chain refl)),
        length-branch 0 n v.last_chain,
      )

  slice_inside :
      (m k : ℕ) (l : List Block) (b : Block) (acc : List Block)
      → m ≤ length l
      → drop m (take k l) ++ (if ltb (length l) k then b ∷ acc else acc)
        ≡ drop m (take k (l ++ b ∷ [])) ++ acc
  slice_inside m k l b acc h = elim (Bool-cases (ltb (length l) k)) [
    | inl long ↦ rw (
      take-append_one k l b,
      long,
      take_all k l (ground arith),
      drop-append m l (b ∷ []) h,
      append_assoc,
    )
    | inr short ↦ rw (take-append_one k l b, short, append-nil)
  ]

  ltb_ℤ-pos_part : (d : ℕ) (e : ℤ) → ltb_ℤ (pos d) e ≡ ltb d (pos_part e)
  ltb_ℤ-pos_part d (pos n) = ground arith
  ltb_ℤ-pos_part d (negsuc n) = ground arith

  pos_part-le : (s : ℤ) (d : ℕ) → leb_ℤ s (pos d) ≡ true → pos_part s ≤ d
  pos_part-le (pos n) d h = ground arith
  pos_part-le (negsuc n) d h = omega arith

  lt-pos_part : (s : ℤ) (d : ℕ) → leb_ℤ s (pos d) ≡ false → d < pos_part s
  lt-pos_part (pos n) d h = ground arith
  lt-pos_part (negsuc n) d h = ground arith

  -- One block at the end of the blocks `l`, with the result `rest` on those.
  slice_step :
      (s e : ℤ) (d : ℕ) (l : List Block) (b : Block) (acc rest : List Block)
      → d ≡ length l
      → rest ≡ drop (pos_part s) (take (pos_part e) l) ++ (if ltb_ℤ (pos d) e then b ∷ acc else acc)
      → (if leb_ℤ s (pos d) then rest else acc)
        ≡ drop (pos_part s) (take (pos_part e) (l ++ b ∷ [])) ++ acc
  slice_step s e d l b acc rest len is_rest = elim (Bool-cases (leb_ℤ s (pos d))) [
    | inl inside ↦
        rw (inside, is_rest, ltb_ℤ-pos_part d e, len)
          (slice_inside (pos_part s) (pos_part e) l b acc (omega (arith, pos_part-le s d inside)))
    | inr past ↦
        let gone : drop (pos_part s) (take (pos_part e) (l ++ b ∷ [])) ≡ [] =
          drop_all (pos_part s) (take (pos_part e) (l ++ b ∷ [])) (
            omega (
              arith,
              length-take_le (pos_part e) (l ++ b ∷ []),
              length-append l (b ∷ []),
              lt-pos_part s d past,
            )) in
        rw (past, gone)
  ]

  slice_loop-branch :
      (r : ℕ) (s e : ℤ) (n : BlockchainNode) (acc : List Block)
      → IsChain r n
      → slice_loop s e n acc ≡ drop (pos_part s) (take (pos_part e) (branch n)) ++ acc
  unfolding slice_loop branch
  slice_loop-branch r s e (root b t d) acc h =
      rw h.0 (slice_step s e 0 [] b acc _ refl (nothing s e b acc))
    where
      nothing :
          (s e : ℤ) (b : Block) (acc : List Block)
          → (if ltb_ℤ (pos 0) e then b ∷ acc else acc)
            ≡ drop (pos_part s) (take (pos_part e) []) ++ (if ltb_ℤ (pos 0) e then b ∷ acc else acc)
      nothing s e b acc =
          rw (take-nil (pos_part e), drop_all {A = Block} (pos_part s) [] (omega arith))
  slice_loop-branch r s e (child b p t d) acc h =
      slice_step s e d (branch p) b acc _ (omega (arith, length-branch r p h.3))
        (slice_loop-branch r s e p (if ltb_ℤ (pos d) e then b ∷ acc else acc) h.3)

  -- On a tree `Slice` gives the blocks of the main chain from index `s` up to, not including, `e`;
  -- a negative index counts as 0.
  pub slice_lem :
      (s e : ℤ) (bc : Blockchain)
      → IsTree bc
      → slice s e bc ≡ drop (pos_part s) (take (pos_part e) (branch bc.last_block))
  unfolding slice
  slice_lem s e bc v = slice_loop-branch 0 s e bc.last_block [] v.last_chain ∙ append-nil _
