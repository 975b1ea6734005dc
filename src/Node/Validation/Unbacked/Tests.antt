-- ===== src/Node/Validation/Unbacked/Tests.antt =====
-- Accepted transactions without a cover, at a concrete node.
use csci1951l_cryptocurrency.Prelude.{[], ◌∷◌, false, true, some, ◌≡◌, refl, arith, ◌≤◌}
use csci1951l_cryptocurrency.Prelude.Result.{ok}
use csci1951l_cryptocurrency.Text.{Bytes, codes}
use csci1951l_cryptocurrency.Text.Decimal.{format}
use csci1951l_cryptocurrency.Text.Equality.{beq}
use csci1951l_cryptocurrency.Text.Hex.{encode_to_string, decode_string, decoded}
use csci1951l_cryptocurrency.Dict.{lookup, contains}
use csci1951l_cryptocurrency.Crypto
use csci1951l_cryptocurrency.Crypto.Toy.{toy, toy-IsSum256, alice_key, alice, alice-IsKeyPair}
use csci1951l_cryptocurrency.Proto
use csci1951l_cryptocurrency.Tx
use csci1951l_cryptocurrency.Tx.{Transaction}
use csci1951l_cryptocurrency.Tx.Txi
use csci1951l_cryptocurrency.Tx.Txi.{TransactionInput}
use csci1951l_cryptocurrency.Tx.Txo
use csci1951l_cryptocurrency.Tx.Txo.{mk_txo_loc}
use csci1951l_cryptocurrency.Blockchain
use csci1951l_cryptocurrency.Blockchain.{last_utxo}
use csci1951l_cryptocurrency.Node.Config
use csci1951l_cryptocurrency.Node.Tests.{owner, purchase, hers, her_script}
use csci1951l_cryptocurrency.Node.Validation.{chk_tx, chk_inputs, chk_input}
use csci1951l_cryptocurrency.Node.Validation.Unbacked.{
  unbacked, unbacked_accepted, IsReuse, reused_accepted,
}

hers-unspent : lookup (mk_txo_loc (codes "t") 0) (last_utxo owner.chain) ≡ some hers
unfolding lookup mk_txo_loc format beq
hers-unspent = refl

-- The output of five pays a million.
unbacked_accepted_example :
    (sig : Bytes) × (chk_tx (some (unbacked (codes "t") 0 sig 1000000 (codes "k"))) owner ≡ ok true)
    × (Tx.sum_outputs (unbacked (codes "t") 0 sig 1000000 (codes "k")) ≡ 1000000)
unfolding Config.default_config
unbacked_accepted_example =
    unbacked_accepted owner alice alice_key alice_key (codes "t") 0 hers 1000000 (codes "k")
      toy-IsSum256 alice-IsKeyPair refl hers-unspent refl (omega arith) (omega arith) (omega arith)

-- The input of the purchase, twice and with a larger amount, for someone else.
abbrev again : TransactionInput
again = record {
  transaction_hash = codes "t";
  output_index = 0;
  unlocking_script = her_script;
  amount = 70;
}

abbrev theft : Transaction
theft = record {
  version = 0;
  inputs = again ∷ again ∷ [];
  outputs = record { amount = 140; locking_script = codes "k"; liminal = false } ∷ [];
  lock_time = 0;
}

pub purchase-accepted : chk_tx (some (Tx.deserialize purchase)) owner ≡ ok true
unfolding chk_tx chk_inputs chk_input Tx.sum_inputs Tx.sum_outputs Tx.deserialize Txo.deserialize
    Txi.deserialize Blockchain.get_utxo Blockchain.is_invalid_input contains lookup mk_txo_loc
    Txo.is_unlckd Txo.hash decoded decode_string Crypto.hash encode_to_string format Tx.sz
    Tx.serialize Proto.sz_of_tx Config.default_config Crypto.byt2pk beq
purchase-accepted = refl

again-IsReuse : IsReuse (Tx.deserialize purchase).inputs again
unfolding Tx.deserialize Txi.deserialize
again-IsReuse = record {
  at = 0;
  old = record again { amount = 5 };
  there = refl;
  same_hash = refl;
  same_index = refl;
  same_script = refl;
}

theft-small : Tx.sz theft ≤ owner.conf.mx_blk_sz
unfolding Tx.sz Tx.serialize Proto.sz_of_tx Config.default_config
theft-small = omega arith

theft-paid : Tx.sum_outputs theft ≡ 140
unfolding Tx.sum_outputs
theft-paid = refl

theft-covered : Tx.sum_inputs theft ≡ 140
unfolding Tx.sum_inputs
theft-covered = refl

reused_accepted_example : chk_tx (some theft) owner ≡ ok true
reused_accepted_example =
    reused_accepted owner (Tx.deserialize purchase) theft purchase-accepted
      (again-IsReuse, (again-IsReuse, tt)) (omega (arith, theft-paid))
      (omega (arith, theft-paid, theft-covered)) theft-small
