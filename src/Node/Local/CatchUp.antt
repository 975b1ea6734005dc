-- ===== src/Node/Local/CatchUp.antt =====
-- `Bootstrap` again and again, with one peer that answers.
pub mod Tests
use mathlib.Core.List.{append-nil, append_assoc, map-append}
use csci1951l_cryptocurrency.Prelude.{
  ℕ, zero, suc, ◌+◌, ◌*◌, ◌≤◌, List, [], ◌∷◌, ◌++◌, map, false, some, none, ◌≡◌, refl, sym, ap, ◌∙◌,
  arith, length, take, drop, inr,
}
use csci1951l_cryptocurrency.Prelude.Slices.{append-take-drop, length-drop}
use csci1951l_cryptocurrency.Prelude.Result.{Result, ok, ◌>>=◌}
use csci1951l_cryptocurrency.Text.{Bytes}
use csci1951l_cryptocurrency.Utils.Logging.{fmt_addr}
use csci1951l_cryptocurrency.Crypto.{Crypto, IsSum256}
use csci1951l_cryptocurrency.Block
use csci1951l_cryptocurrency.Block.{Block}
use csci1951l_cryptocurrency.Blockchain.{block}
use csci1951l_cryptocurrency.Blockchain.MainChain.{branch}
use csci1951l_cryptocurrency.Blockchain.Linked.{end_hash-Follows}
use csci1951l_cryptocurrency.Net.PeerDb
use csci1951l_cryptocurrency.Net.PeerDb.{Peer}
use csci1951l_cryptocurrency.Node.{Node, Outcome}
use csci1951l_cryptocurrency.Node.Local.{longest, bootstrap}
use csci1951l_cryptocurrency.Node.Local.Fetch.{unmark_block, answer_of, HasMiner}
use csci1951l_cryptocurrency.Node.Local.Sync.{IsBehind, offer, caught_up, bootstrap-HasFetched}

module _ ⦃crypto : Crypto⦄ where
  -- The node after this many calls of Bootstrap, each answered by the peer.
  unfoldable pub catch_up : ℕ → Node → Node → Result Node
  catch_up zero s n = ok n
  catch_up (suc k) s n = do
    o ← bootstrap (some (offer n s) ∷ []) (answer_of s) n
    catch_up k s o.node

  only_answer : (best : List Bytes) → longest none (some best ∷ []) ≡ some best
  unfolding longest
  only_answer best = refl

  -- A node with a miner and a peer in its database is behind that peer by some blocks, and calls
  -- Bootstrap at least as often as 499 goes into their number, rounded up. Then every call returns,
  -- the node's main chain is what it was and all of these blocks, as they are read back, and its last
  -- block has the hash of the peer's.
  pub catch_up-agrees :
      IsSum256
      → (k : ℕ) (n s : Node) (rest : List Block) (own : Bytes) (p : Peer) (peers : List Peer)
      → IsBehind n s rest
      → length rest ≤ 499 * k
      → fmt_addr n.addr ≡ ok own
      → PeerDb.list n.peer_db ≡ p ∷ peers
      → HasMiner n
      → (n' : Node) × (catch_up k s n ≡ ok n')
        × (branch n'.chain.last_block ≡ branch n.chain.last_block ++ map unmark_block rest)
        × (Block.hash (block n'.chain.last_block) ≡ Block.hash (block s.chain.last_block))
  unfolding catch_up
  catch_up-agrees law zero n s [] own p peers v few printed peered has =
      (n, refl, sym (append-nil _), sym v.same ∙ end_hash-Follows v.follows)
  catch_up-agrees law zero n s (b ∷ rest) own p peers v few printed peered has =
      absurd (omega arith)
  catch_up-agrees law (suc k) n s rest own p peers v few printed peered has =
      let (n', ran, f) =
        bootstrap-HasFetched law n s rest own p peers (some (offer n s) ∷ []) v printed peered
          (only_answer (offer n s)) (inr has) in
      let (n'', ended, grown, agrees) =
        catch_up-agrees law k n' s (drop 499 rest) own p peers (caught_up n n' s rest v f)
          (omega (arith, length-drop 499 rest)) (ap fmt_addr f.rest.addr ∙ printed)
          (ap PeerDb.list f.rest.peer_db ∙ peered) (f.rest.manned has) in
      (
        n'',
        rw ran ended,
        grown
            ∙ ap (λ l. l ++ map unmark_block (drop 499 rest)) f.grown
            ∙ append_assoc (branch n.chain.last_block) (map unmark_block (take 499 rest))
                (map unmark_block (drop 499 rest))
            ∙ ap (λ l. branch n.chain.last_block ++ l)
                (sym (map-append unmark_block (take 499 rest) (drop 499 rest))
                  ∙ ap (map unmark_block) (append-take-drop 499 rest)),
        agrees,
      )
