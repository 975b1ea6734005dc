-- ===== src/Node/Handlers/Mined.antt =====
-- `ForwardBlock` at a node to which a miner's block comes.
use mathlib.Core.List.{append_assoc}
use csci1951l_cryptocurrency.Prelude.{
  ℕ, ◌+◌, ◌<◌, ◌≤◌, List, [], ◌∷◌, ◌++◌, map, ◌&&◌, if◌then◌else◌, Bool, true, false, some, ◌≡◌,
  refl, sym, ap, ap₂, ◌∙◌, arith, All, ltb, length, ◌==◌, ◌⊎◌, inl, inr, List-cases,
}
use csci1951l_cryptocurrency.Prelude.Int.{pos, sub_ℕ}
use csci1951l_cryptocurrency.Prelude.Word.{u32_mod}
use csci1951l_cryptocurrency.Prelude.Result.{ok}
use csci1951l_cryptocurrency.Dict.{lookup}
use csci1951l_cryptocurrency.Dict.Laws.{lookup-insert_self}
use csci1951l_cryptocurrency.Crypto.{Crypto}
use csci1951l_cryptocurrency.Tx.{Transaction}
use csci1951l_cryptocurrency.Tx.Sums.{sum_sizes}
use csci1951l_cryptocurrency.Block
use csci1951l_cryptocurrency.Block.{Block}
use csci1951l_cryptocurrency.Block.Made.{unmark_txs_twice}
use csci1951l_cryptocurrency.Block.RoundTrip.{unmark_tx, deserialize-serialize_lem}
use csci1951l_cryptocurrency.Blockchain
use csci1951l_cryptocurrency.Blockchain.{
  Blockchain, BlockchainNode, append_to, child, utxo_ref, depth, chk_chains_utxo,
}
use csci1951l_cryptocurrency.Blockchain.Invariant.{add_found}
use csci1951l_cryptocurrency.Miner.{Miner, Sent, send_blk, reward_of, new_mining_pool, mine_round}
use csci1951l_cryptocurrency.Miner.Mined.{IsMined, mine_round_lem}
use csci1951l_cryptocurrency.Miner.Work.{in_order}
use csci1951l_cryptocurrency.Net.PeerDb
use csci1951l_cryptocurrency.Node.{
  Node, Outcome, Started, mnr_hndl_blk, wallet_hndl_blk, forward_block_rpc,
}
use csci1951l_cryptocurrency.Node.Validation.{chk_blk}
use csci1951l_cryptocurrency.Node.Validation.Mined.{mine_round_accepted}
use csci1951l_cryptocurrency.Node.Validation.Transactions.{IsSpendable}
use csci1951l_cryptocurrency.Node.Handlers.{seen, safe_block, accept_block, forward_block}
use csci1951l_cryptocurrency.Node.Handlers.Relay.{noted}

module _ ⦃crypto : Crypto⦄ where
  -- A block that a miner made is the same after it was sent.
  read_back : (m : Miner) (b : Block) → IsMined m b → Block.deserialize (Block.serialize b) ≡ ok b
  read_back m b f =
      let same : map unmark_tx b.transactions ≡ b.transactions =
        ap (map unmark_tx) f.split
        ∙ ap₂ ◌∷◌ f.rewarded.unmarked (unmark_txs_twice (new_mining_pool m))
        ∙ sym f.split in
      deserialize-serialize_lem b ∙ ap (λ txs. ok (record b { transactions = txs })) same

  -- Whether a transaction is spendable does not depend on the blocks that were seen.
  All-noted :
      (b : Block) (n : Node) (txs : List Transaction)
      → All (IsSpendable n) txs
      → All (IsSpendable (noted b n)) txs
  All-noted b n [] all = tt
  All-noted b n (t ∷ txs) all = (
    record {
      pays = all.0.pays;
      covered = all.0.covered;
      unlocked = all.0.unlocked;
      fits = all.0.fits;
    },
    All-noted b n txs all.1,
  )

  -- What a node does with a new block that it accepts, after a block that it knows.
  pub record IsTakenUp (b : Block) (prev : BlockchainNode) (n : Node) (o : Outcome) : Type 0 where
    pub fine : o.failed ≡ false
    pub added :
        lookup (Block.hash b) o.node.chain.blocks
        ≡ some (child b prev (utxo_ref prev) (depth prev + 1))
    pub chained : o.node.chain ≡ append_to b prev n.chain
    pub own : List Started
    pub relayed :
        o.started
        ≡ own ++ map (λ p. forward_block_rpc p (Block.serialize b)) (PeerDb.list n.peer_db)

  -- The node has no wallet, or one that waits for at least one block.
  abbrev pub HasSafeAmt : Node → Type 0
  HasSafeAmt n = (n.conf.wt_conf.has_wt ≡ false) ⊎ (0 < n.conf.wt_conf.safe_blk_amt)

  safe_block_returns :
      (amt : ℕ) (chain : Blockchain)
      → 0 < amt
      → (safe : List Started) × (safe_block amt chain ≡ ok safe)
  unfolding safe_block
  safe_block_returns amt chain some_amt =
      let waits : (amt == 0) ≡ false = ground (arith, some_amt) in
      elim (List-cases (
        Blockchain.slice (sub_ℕ (Blockchain.length_of chain) amt) (pos (Blockchain.length_of chain))
          chain)) [
            | inl none_there ↦ ([], rw (safe_block, none_there, waits) refl)
            | inr (b, blks, there) ↦ (
              if length (b ∷ blks) == amt then wallet_hndl_blk b ∷ [] else [],
              rw (safe_block, there) refl,
            )
          ]

  -- What is started for the wallet, if it is asked.
  pub safe_returns :
      (asked : Bool) (amt : ℕ) (chain : Blockchain)
      → (asked ≡ false) ⊎ (0 < amt)
      → (safe : List Started) × ((if asked then safe_block amt chain else ok []) ≡ ok safe)
  safe_returns false amt chain amount = ([], refl)
  safe_returns true amt chain (inl unasked) = absurd (ground (arith, unasked))
  safe_returns true amt chain (inr some_amt) = safe_block_returns amt chain some_amt

  main_asked :
      (n : Node) (main : Bool)
      → HasSafeAmt n
      → ((n.conf.wt_conf.has_wt && main) ≡ false) ⊎ (0 < n.conf.wt_conf.safe_blk_amt)
  main_asked n main (inl without) = inl (rw without refl)
  main_asked n main (inr some_amt) = inr some_amt

  accept_block-IsTakenUp :
      (b : Block) (prev : BlockchainNode) (n : Node)
      → HasSafeAmt n
      → lookup b.hdr.prv_blk_hsh n.chain.blocks ≡ some prev
      → (o : Outcome) × (accept_block b n ≡ ok o) × IsTakenUp b prev n o
  unfolding accept_block append_to
  accept_block-IsTakenUp b prev n amount found =
      let chain = append_to b prev n.chain in
      let mn_chn = Blockchain.is_end_main_chain b n.chain in
      let to_miner : List Started =
        if n.conf.mnr_conf.has_mnr && mn_chn then mnr_hndl_blk b ∷ [] else [] in
      let (to_wallet, returns) =
        safe_returns (n.conf.wt_conf.has_wt && mn_chn) n.conf.wt_conf.safe_blk_amt chain
          (main_asked n mn_chn amount) in
      let relays = map (λ p. forward_block_rpc p (Block.serialize b)) (PeerDb.list n.peer_db) in
      (
        record {
          node = record n { chain = chain };
          started = to_miner ++ (to_wallet ++ relays);
          failed = false;
        },
        rw (add_found b prev n.chain found, returns),
        record {
          fine = refl;
          added = lookup-insert_self (Block.hash b) _ n.chain.blocks;
          chained = refl;
          own = to_miner ++ to_wallet;
          relayed = sym (append_assoc to_miner to_wallet relays);
        },
      )

  forward_block-accepts :
      (b : Block) (n : Node) (o : Outcome)
      → Block.deserialize (Block.serialize b) ≡ ok b
      → seen (Block.hash b) n.block_map ≡ false
      → chk_blk (some b) (noted b n) ≡ ok true
      → accept_block b (noted b n) ≡ ok o
      → forward_block (Block.serialize b) n ≡ ok o
  unfolding forward_block
  forward_block-accepts b n o read fresh valid taken = rw (read, fresh, valid, taken)

  -- A miner's round sends a block that has a reward, and the message with it comes to a node that has
  -- not seen it and knows the block before it. Where the miner's transactions are spendable at the
  -- node and unspent after the block before, the sizes of the miner's whole pool and 100 bytes are
  -- together below 2 ^ 32, the miner's block size is above 100 and no more than the node's, which is
  -- below 2 ^ 32, and the node's wallet, if it has one, waits for at least one block: the node takes the block up one deeper than the one before it, and passes it on
  -- to each of its peers.
  pub mine_round-IsTakenUp :
      (done : ℕ → Bool) (m m' : Miner) (b : Block) (sent : List Sent) (n : Node)
      (prev : BlockchainNode)
      → mine_round done m ≡ ok (m', send_blk b ∷ sent)
      → All (IsSpendable n) (new_mining_pool m)
      → chk_chains_utxo (new_mining_pool m) m.prv_hsh n.chain ≡ true
      → 100 + sum_sizes (in_order m.tx_p.tx_q) < u32_mod
      → 100 < m.conf.blk_sz
      → m.conf.blk_sz ≤ n.conf.mx_blk_sz
      → n.conf.mx_blk_sz < u32_mod
      → 0 < reward_of (new_mining_pool m) m
      → lookup m.prv_hsh n.chain.blocks ≡ some prev
      → seen (Block.hash b) n.block_map ≡ false
      → HasSafeAmt n
      → (o : Outcome) × (forward_block (Block.serialize b) n ≡ ok o)
        × IsTakenUp b prev (noted b n) o
  mine_round-IsTakenUp done m m' b sent n prev e spendable unspent small room size word pays found
        fresh amount =
      let (mined, linked) = mine_round_lem done m m' b sent e in
      let (checked, next) =
        mine_round_accepted done m m' b sent (noted b n) e
          (All-noted b n (new_mining_pool m) spendable) unspent small room size word in
      let reward : ltb 0 (reward_of (new_mining_pool m) m) ≡ true = ground (arith, pays) in
      let (o, taken, how) =
        accept_block-IsTakenUp b prev (noted b n) amount
          (ap (λ h. lookup h n.chain.blocks) mined.after ∙ found) in
      (
        o,
        forward_block-accepts b n o (read_back m b mined) fresh (checked ∙ ap ok reward) taken,
        how,
      )
