-- ===== src/Node/Local/CatchUp/Tests.antt =====
-- Catching up in two calls, at concrete chains.
use csci1951l_cryptocurrency.Prelude.{[], ◌∷◌, ◌++◌, ◌≡◌, refl, map, arith}
use csci1951l_cryptocurrency.Prelude.Result.{ok}
use csci1951l_cryptocurrency.Crypto.Toy.{toy, toy-IsSum256}
use csci1951l_cryptocurrency.Block
use csci1951l_cryptocurrency.Blockchain.{block}
use csci1951l_cryptocurrency.Blockchain.MainChain.{branch}
use csci1951l_cryptocurrency.Node.{Node}
use csci1951l_cryptocurrency.Node.Runs.Tests.{digger}
use csci1951l_cryptocurrency.Node.Local.Fetch.{unmark_block}
use csci1951l_cryptocurrency.Node.Local.CatchUp.{catch_up, catch_up-agrees}
use csci1951l_cryptocurrency.Node.Local.Sync.Tests.{
  first, ally, early, later, novice, veteran, novice-IsBehind, novice-printed, novice-peered,
}

catch_up-agrees_example :
    (n : Node) × (catch_up 2 veteran novice ≡ ok n)
    × (branch n.chain.last_block ≡ branch early.last_block ++ map unmark_block (first ∷ []))
    × (Block.hash (block n.chain.last_block) ≡ Block.hash (block later.last_block))
catch_up-agrees_example =
    catch_up-agrees toy-IsSum256 2 novice veteran (first ∷ []) [] ally [] novice-IsBehind
      (omega arith) novice-printed novice-peered (digger, refl)
