-- ===== src/Tx/Tests.antt =====
-- The theorems on transactions at concrete ones.
use csci1951l_cryptocurrency.Prelude.{[], ◌∷◌, map, true, some, ◌≡◌, refl, arith}
use csci1951l_cryptocurrency.Prelude.Result.{ok}
use csci1951l_cryptocurrency.Text.{Bytes}
use csci1951l_cryptocurrency.Text.Hex.{encode_to_string}
use csci1951l_cryptocurrency.Crypto.Toy.{toy, toy-IsSum256, alice_key, alice, alice-IsKeyPair}
use csci1951l_cryptocurrency.Tx.{Transaction}
use csci1951l_cryptocurrency.Tx.Txo.{TransactionOutput, mk_txo_loc, prs_txo_loc, mk_sig, is_unlckd}
use csci1951l_cryptocurrency.Tx.Txo.Locator.{prs_txo_loc-mk}
use csci1951l_cryptocurrency.Tx.Txo.Signature.{is_unlckd-mk_sig}
use csci1951l_cryptocurrency.Tx.Heap
use csci1951l_cryptocurrency.Tx.Heap.{Heap}
use csci1951l_cryptocurrency.Tx.Heap.Order.{IsHeap}
use csci1951l_cryptocurrency.Tx.Heap.Removal.{Removes, rmv_refines}

abbrev hers : TransactionOutput
hers = record { amount = 12; locking_script = encode_to_string alice_key; liminal = true }

abbrev gift : Transaction
gift = record {
  version = 0;
  inputs =
      record { transaction_hash = 7 ∷ []; output_index = 1; unlocking_script = 8 ∷ []; amount = 12 }
      ∷ [];
  outputs = hers ∷ [];
  lock_time = 3;
}

prs_txo_loc-mk_example : prs_txo_loc (mk_txo_loc (7 ∷ 9 ∷ []) 12) ≡ ok (7 ∷ 9 ∷ [], 12)
prs_txo_loc-mk_example =
    prs_txo_loc-mk (7 ∷ 9 ∷ []) 12 (ground arith, (ground arith, tt)) (omega arith)

is_unlckd-mk_sig_example :
    (sig : Bytes) × (mk_sig [] hers alice ≡ ok sig) × (is_unlckd hers sig ≡ ok true)
is_unlckd-mk_sig_example =
    is_unlckd-mk_sig [] hers alice alice_key alice_key toy-IsSum256 alice-IsKeyPair refl refl

-- A slice that is no heap, and one entry of it to remove.
abbrev pile : Heap
pile = record { p = 1; t = gift } ∷ record { p = 5; t = record gift { lock_time = 4 } } ∷ []

rmv_refines_example :
    Removes
      (gift ∷ [])
      (Heap.rmv (map some (gift ∷ [])) pile).0
      pile
      (Heap.rmv (map some (gift ∷ [])) pile).1
    × IsHeap (Heap.rmv (map some (gift ∷ [])) pile).1
rmv_refines_example = rmv_refines (gift ∷ []) pile
