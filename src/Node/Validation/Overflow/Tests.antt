-- ===== src/Node/Validation/Overflow/Tests.antt =====
-- A transaction whose outputs wrap around, at a concrete node.
use csci1951l_cryptocurrency.Prelude.{◌+◌, ◌≤◌, List, [], ◌∷◌, true, false, some, ◌≡◌, refl, arith}
use csci1951l_cryptocurrency.Prelude.Result.{ok}
use csci1951l_cryptocurrency.Text.{codes}
use csci1951l_cryptocurrency.Crypto.Toy.{toy}
use csci1951l_cryptocurrency.Proto
use csci1951l_cryptocurrency.Tx
use csci1951l_cryptocurrency.Tx.Sums.{paid}
use csci1951l_cryptocurrency.Tx.Txo.{TransactionOutput}
use csci1951l_cryptocurrency.Node.Config
use csci1951l_cryptocurrency.Node.Tests.{owner, purchase}
use csci1951l_cryptocurrency.Node.Validation.{chk_tx}
use csci1951l_cryptocurrency.Node.Validation.Overflow.{padded, padded_accepted}
use csci1951l_cryptocurrency.Node.Validation.Unbacked.Tests.{purchase-accepted}

-- Two outputs of 2 ^ 31.
abbrev fortune : List TransactionOutput
fortune =
    record { amount = 2147483648; locking_script = codes "k"; liminal = false }
    ∷ record { amount = 2147483648; locking_script = codes "k"; liminal = false }
    ∷ []

fortune-small : Tx.sz (padded (Tx.deserialize purchase) fortune) ≤ owner.conf.mx_blk_sz
unfolding Tx.sz Tx.deserialize Tx.serialize Proto.sz_of_tx Config.default_config
fortune-small = omega arith

padded_accepted_example :
    (chk_tx (some (padded (Tx.deserialize purchase) fortune)) owner ≡ ok true)
    × (paid (padded (Tx.deserialize purchase) fortune).outputs
        ≡ paid (Tx.deserialize purchase).outputs + paid fortune)
padded_accepted_example =
    padded_accepted owner (Tx.deserialize purchase) fortune purchase-accepted refl fortune-small
