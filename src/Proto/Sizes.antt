-- ===== src/Proto/Sizes.antt =====
-- The sizes of a transaction and a block, where they do not wrap around.
use csci1951l_cryptocurrency.Prelude.{
  ℕ, ◌+◌, ◌*◌, ◌<◌, List, [], ◌∷◌, map, some, ◌≡◌, ap, arith, length,
}
use csci1951l_cryptocurrency.Prelude.Result.{ok}
use csci1951l_cryptocurrency.Prelude.Word.{u32_mod}
use csci1951l_cryptocurrency.Proto.{
  TransactionInput, TransactionOutput, Transaction, sz_of_inputs, sz_of_outputs, sz_of_tx,
  BlockHeader, sz_of_hdr, sz_of_txs, sz_of_blk,
}
use csci1951l_cryptocurrency.Tx
use csci1951l_cryptocurrency.Tx.Sums.{sum_sizes}

sz_of_inputs_lem :
    (sz : ℕ) (ins : List TransactionInput)
    → sz + 40 * length ins < u32_mod
    → sz_of_inputs sz ins ≡ sz + 40 * length ins
unfolding sz_of_inputs
sz_of_inputs_lem sz [] small = omega arith
sz_of_inputs_lem sz (i ∷ ins) small = ground (arith, sz_of_inputs_lem (sz + 40) ins)

sz_of_outputs_lem :
    (sz : ℕ) (outs : List TransactionOutput)
    → sz + 20 * length outs < u32_mod
    → sz_of_outputs sz outs ≡ sz + 20 * length outs
unfolding sz_of_outputs
sz_of_outputs_lem sz [] small = omega arith
sz_of_outputs_lem sz (o ∷ outs) small = ground (arith, sz_of_outputs_lem (sz + 20) outs)

-- 40 bytes an input, 20 an output, and 8 more.
pub sz_of_tx_lem :
    (t : Transaction)
    → 40 * length t.inputs + 20 * length t.outputs + 8 < u32_mod
    → sz_of_tx t ≡ 40 * length t.inputs + 20 * length t.outputs + 8
unfolding sz_of_tx
sz_of_tx_lem t small =
    ground (arith, sz_of_inputs_lem 0 t.inputs, sz_of_outputs_lem (40 * length t.inputs) t.outputs)

sz_of_txs_lem :
    (sz : ℕ) (txs : List Tx.Transaction)
    → sz + sum_sizes txs < u32_mod
    → sz_of_txs sz (map Tx.serialize txs) ≡ sz + sum_sizes txs
unfolding sz_of_txs Tx.sz
sz_of_txs_lem sz [] small = omega arith
sz_of_txs_lem sz (t ∷ txs) small =
    ground (arith, sz_of_txs_lem (sz + sz_of_tx (Tx.serialize t)) txs)

-- 44 bytes for the header, and the transactions.
pub sz_of_blk_lem :
    (h : BlockHeader) (txs : List Tx.Transaction)
    → 44 + sum_sizes txs < u32_mod
    → sz_of_blk (record { header = some h; transactions = map Tx.serialize txs })
      ≡ ok (44 + sum_sizes txs)
unfolding sz_of_blk sz_of_hdr
sz_of_blk_lem h txs small = rw (sz_of_txs_lem 0 txs (omega arith)) (ap ok (omega arith))
