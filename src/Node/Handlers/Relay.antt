-- ===== src/Node/Handlers/Relay.antt =====
-- What the handlers of transactions and blocks do on a second call, and to the chain.
use csci1951l_cryptocurrency.Prelude.{
  Bool, true, false, ◌&&◌, if◌then◌else◌, [], some, ◌≡◌, sym, subst, ap, arith, Bool-cases, inl,
  inr,
}
use csci1951l_cryptocurrency.Prelude.Result.{ok, panic, >>=-eq-ok, ok-injective}
use csci1951l_cryptocurrency.Text.{Bytes}
use csci1951l_cryptocurrency.Utils.Logging.{fmt_addr}
use csci1951l_cryptocurrency.Dict.{Dict, contains, insert}
use csci1951l_cryptocurrency.Dict.Laws.{lookup-insert_self}
use csci1951l_cryptocurrency.Crypto.{Crypto}
use csci1951l_cryptocurrency.Proto
use csci1951l_cryptocurrency.Tx
use csci1951l_cryptocurrency.Block
use csci1951l_cryptocurrency.Block.{Block}
use csci1951l_cryptocurrency.Blockchain
use csci1951l_cryptocurrency.Blockchain.Invariant.{IsTree, add-IsTree, add_panics}
use csci1951l_cryptocurrency.Node.{Node, Outcome}
use csci1951l_cryptocurrency.Node.Validation.{chk_tx, chk_blk}
use csci1951l_cryptocurrency.Node.Handlers.{
  seen, unchanged, accept_tx, forward_transaction, safe_block, accept_block, forward_block,
}

seen-insert : (k : Bytes) (m : Dict Bool) → seen k (insert k true m) ≡ true
unfolding seen
seen-insert k m = rw (lookup-insert_self k true m, seen)

module _ ⦃crypto : Crypto⦄ where
  -- How `ForwardTransaction` ends: the hash is seen before, or the transaction is refused, or it is
  -- accepted.
  pub data Heard (inp : Proto.Transaction) (n : Node) (o : Outcome) : Type 1 where
    known :
        seen (Tx.hash (Tx.deserialize inp)) n.tx_map ≡ true → o ≡ unchanged n false → Heard inp n o
    refused : chk_tx (some (Tx.deserialize inp)) n ≡ ok false → o ≡ unchanged n true → Heard inp n o
    accepted :
        chk_tx (some (Tx.deserialize inp)) n ≡ ok true
        → o ≡ accept_tx (Tx.deserialize inp) n
        → Heard inp n o

  pub heard :
      (inp : Proto.Transaction) (n : Node) (o : Outcome)
      → forward_transaction inp n ≡ ok o
      → Heard inp n o
  unfolding forward_transaction
  heard inp n o e = elim (Bool-cases (seen (Tx.hash (Tx.deserialize inp)) n.tx_map)) [
    | inl again ↦ known again (sym (ok-injective (rw again at e)))
    | inr fresh ↦
        let (valid, checked, e') =
          >>=-eq-ok (chk_tx (some (Tx.deserialize inp)) n) _ (rw fresh at e) in
        let (from, own, e'') = >>=-eq-ok (fmt_addr n.addr) _ e' in
        let (tag, named, e3) = >>=-eq-ok (Tx.name_tag (Tx.deserialize inp)) _ e'' in
        elim (Bool-cases valid) [
          | inl is_valid ↦
              accepted (rw is_valid at checked) (sym (ok-injective (rw is_valid at e3)))
          | inr is_invalid ↦
              refused (rw is_invalid at checked) (sym (ok-injective (rw is_invalid at e3)))
        ]
  ]

  seen_again :
      (inp : Proto.Transaction) (n : Node)
      → seen (Tx.hash (Tx.deserialize inp)) n.tx_map ≡ true
      → forward_transaction inp n ≡ ok (unchanged n false)
  unfolding forward_transaction
  seen_again inp n again = rw again

  seen-accept_tx :
      (inp : Proto.Transaction) (n : Node)
      → seen (Tx.hash (Tx.deserialize inp)) (accept_tx (Tx.deserialize inp) n).node.tx_map ≡ true
  unfolding accept_tx
  seen-accept_tx inp n = seen-insert (Tx.hash (Tx.deserialize inp)) n.tx_map

  -- A transaction message that was handled without an error is ignored when it comes again: nothing
  -- changes and nothing is started.
  pub forward_transaction_once :
      (inp : Proto.Transaction) (n : Node) (o : Outcome)
      → forward_transaction inp n ≡ ok o
      → o.failed ≡ false
      → forward_transaction inp o.node ≡ ok (unchanged o.node false)
  forward_transaction_once inp n o e fine = seen_again inp o.node (elim (heard inp n o e) [
    | known again same ↦ rw same again
    | refused invalid same ↦ absurd (ground (arith, fine, ap (λ (p : Outcome). p.failed) same))
    | accepted valid same ↦ rw same (seen-accept_tx inp n)
  ])

  -- The node after a block was entered among those seen.
  abbrev pub noted : Block → Node → Node
  noted b n = record n { block_map = insert (Block.hash b) true n.block_map }

  -- How `ForwardBlock` ends, for the block that was read.
  pub data Offered (b : Block) (n : Node) (o : Outcome) : Type 1 where
    known : seen (Block.hash b) n.block_map ≡ true → o ≡ unchanged n false → Offered b n o
    refused :
        chk_blk (some b) (noted b n) ≡ ok false → o ≡ unchanged (noted b n) true → Offered b n o
    accepted :
        chk_blk (some b) (noted b n) ≡ ok true
        → (chain : Blockchain.Blockchain) → Blockchain.add (some b) n.chain ≡ ok chain
        → o.node ≡ record (noted b n) { chain = chain }
        → Offered b n o

  accept_block-add :
      (b : Block) (n : Node) (o : Outcome)
      → accept_block b n ≡ ok o
      → (chain : Blockchain.Blockchain) × (Blockchain.add (some b) n.chain ≡ ok chain)
        × (o.node ≡ record n { chain = chain })
  unfolding accept_block
  accept_block-add b n o e =
      let (chain, added, e') = >>=-eq-ok (Blockchain.add (some b) n.chain) _ e in
      let mn_chn = Blockchain.is_end_main_chain b n.chain in
      let (safe, waits, e'') =
        >>=-eq-ok
          (if n.conf.wt_conf.has_wt && mn_chn
            then safe_block n.conf.wt_conf.safe_blk_amt chain
            else ok [])
          _ e' in
      (chain, added, sym (ap (λ (p : Outcome). p.node) (ok-injective e'')))

  pub offered :
      (inp : Proto.Block) (n : Node) (o : Outcome)
      → forward_block inp n ≡ ok o
      → (b : Block) × (Block.deserialize inp ≡ ok b) × Offered b n o
  unfolding forward_block
  offered inp n o e =
      let (b, read, e') = >>=-eq-ok (Block.deserialize inp) _ e in
      (
        b,
        read,
        elim (Bool-cases (seen (Block.hash b) n.block_map)) [
          | inl again ↦ known again (sym (ok-injective (rw again at e')))
          | inr fresh ↦
              let (valid, checked, e'') =
                >>=-eq-ok (chk_blk (some b) (noted b n)) _ (rw fresh at e') in
              elim (Bool-cases valid) [
                | inl is_valid ↦
                    let (chain, added, same) =
                      accept_block-add b (noted b n) o (rw is_valid at e'') in
                    accepted (rw is_valid at checked) chain added same
                | inr is_invalid ↦
                    let (from, own, e3) = >>=-eq-ok (fmt_addr n.addr) _ (rw is_invalid at e'') in
                    let (tag, named, e4) = >>=-eq-ok (Block.name_tag b) _ e3 in
                    refused (rw is_invalid at checked) (sym (ok-injective e4))
              ]
        ],
      )

  offered_again :
      (inp : Proto.Block) (b : Block) (n : Node)
      → Block.deserialize inp ≡ ok b
      → seen (Block.hash b) n.block_map ≡ true
      → forward_block inp n ≡ ok (unchanged n false)
  unfolding forward_block
  offered_again inp b n read again = rw (read, again)

  -- A block message that was handled is ignored when it comes again, whether the block was accepted
  -- or refused: nothing changes and nothing is started.
  pub forward_block_once :
      (inp : Proto.Block) (n : Node) (o : Outcome)
      → forward_block inp n ≡ ok o
      → forward_block inp o.node ≡ ok (unchanged o.node false)
  forward_block_once inp n o e =
      let (b, read, how) = offered inp n o e in
      let noted_now = seen-insert (Block.hash b) n.block_map in
      let is_seen : Node → Type 0 = λ m. seen (Block.hash b) m.block_map ≡ true in
      let same_node : Outcome → Type 0 = λ p. is_seen p.node in
      offered_again inp b o.node read (elim how [
        | known again same ↦ subst same_node (sym same) again
        | refused invalid same ↦ subst same_node (sym same) noted_now
        | accepted valid chain added same ↦ subst is_seen (sym same) noted_now
      ])

  -- Handling a block message, where it does not panic, keeps the node's chain a tree.
  pub forward_block-IsTree :
      (inp : Proto.Block) (n : Node) (o : Outcome)
      → IsTree n.chain
      → forward_block inp n ≡ ok o
      → IsTree o.node.chain
  forward_block-IsTree inp n o tree e =
      let (b, read, how) = offered inp n o e in
      elim how [
        | known again same ↦ subst (λ (p : Outcome). IsTree p.node.chain) (sym same) tree
        | refused invalid same ↦ subst (λ (p : Outcome). IsTree p.node.chain) (sym same) tree
        | accepted valid chain added same ↦
            subst (λ (m : Node). IsTree m.chain) (sym same)
              (add-IsTree (some b) n.chain chain tree added)
      ]

  -- A block that passes the checks and is new, but whose previous block the node does not know, makes
  -- the handler panic.
  pub forward_block_orphan :
      (inp : Proto.Block) (b : Block) (n : Node)
      → Block.deserialize inp ≡ ok b
      → seen (Block.hash b) n.block_map ≡ false
      → chk_blk (some b) (noted b n) ≡ ok true
      → contains b.hdr.prv_blk_hsh n.chain.blocks ≡ false
      → forward_block inp n ≡ panic
  unfolding forward_block accept_block
  forward_block_orphan inp b n read fresh valid orphan =
      rw (read, fresh, valid, (add_panics b n.chain).1 orphan)
