-- ===== src/Block/RoundTrip.antt =====
-- A block survives its wire form.
use csci1951l_cryptocurrency.Prelude.{List, [], ◌∷◌, map, some, ◌≡◌, refl, arith, ap₂}
use csci1951l_cryptocurrency.Prelude.Result.{ok}
use csci1951l_cryptocurrency.Proto
use csci1951l_cryptocurrency.Tx
use csci1951l_cryptocurrency.Tx.{Transaction}
use csci1951l_cryptocurrency.Tx.RoundTrip.{unmark, deserialize-serialize, serialize-deserialize}
use csci1951l_cryptocurrency.Block.{Block, serialize, deserialize}

abbrev pub unmark_tx : Transaction → Transaction
unmark_tx t = record t { outputs = map unmark t.outputs }

pub txs_back : (l : List Transaction) → map Tx.deserialize (map Tx.serialize l) ≡ map unmark_tx l
txs_back [] = refl
txs_back (t ∷ l) = ap₂ ◌∷◌ (deserialize-serialize t) (txs_back l)

txs_wire : (l : List Proto.Transaction) → map Tx.serialize (map Tx.deserialize l) ≡ l
txs_wire [] = refl
txs_wire (p ∷ l) = ap₂ ◌∷◌ (serialize-deserialize p) (txs_wire l)

-- A block is read back from its message, with the outputs of its transactions unmarked and the
-- same header, so with the same hash.
pub deserialize-serialize_lem :
    (b : Block)
    → deserialize (serialize b) ≡ ok (record b { transactions = map unmark_tx b.transactions })
unfolding serialize deserialize
deserialize-serialize_lem b = rw (txs_back b.transactions)

-- What a message is read as is written as the same message.
serialize-deserialize_lem :
    (h : Proto.BlockHeader) (txs : List Proto.Transaction) (b : Block)
    → deserialize (record { header = some h; transactions = txs }) ≡ ok b
    → serialize b ≡ record { header = some h; transactions = txs }
unfolding serialize deserialize
serialize-deserialize_lem h txs b e = ground (arith, txs_wire txs)
