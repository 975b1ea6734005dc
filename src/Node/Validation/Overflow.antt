-- ===== src/Node/Validation/Overflow.antt =====
-- `ChkTx` compares what `SumOutputs` gives, a uint32, with what the inputs claim.
pub mod Tests
use csci1951l_cryptocurrency.Prelude.{
  ℕ, ◌+◌, ◌%◌, ◌≤◌, ◌<◌, List, ◌++◌, true, some, ◌≡◌, ap, ◌∙◌, sym, arith,
}
use csci1951l_cryptocurrency.Prelude.Word.{u32_mod}
use csci1951l_cryptocurrency.Prelude.Result.{ok}
use csci1951l_cryptocurrency.Crypto.{Crypto}
use csci1951l_cryptocurrency.Tx
use csci1951l_cryptocurrency.Tx.{Transaction, sum_inputs, sum_outputs}
use csci1951l_cryptocurrency.Tx.Sums.{paid, paid_append, sum_outputs_wrap}
use csci1951l_cryptocurrency.Tx.Txo.{TransactionOutput}
use csci1951l_cryptocurrency.Node.{Node}
use csci1951l_cryptocurrency.Node.Validation.{chk_tx}
use csci1951l_cryptocurrency.Node.Validation.Transactions.{chk_tx_iff}

-- A transaction with further outputs.
abbrev pub padded : Transaction → List TransactionOutput → Transaction
padded t outs = record t { outputs = t.outputs ++ outs }

sum_outputs-padded :
    (t : Transaction) (outs : List TransactionOutput)
    → paid outs % u32_mod ≡ 0
    → sum_outputs (padded t outs) ≡ sum_outputs t
sum_outputs-padded t outs wraps =
    omega (
      arith,
      sum_outputs_wrap t,
      sum_outputs_wrap (padded t outs),
      paid_append t.outputs outs,
      wraps,
    )

module _ ⦃crypto : Crypto⦄ where
  -- A node accepts a transaction. Then it also accepts it with any further outputs that together pay
  -- a multiple of 2 ^ 32, if it is still within the block size; and that transaction pays the amounts
  -- of these outputs in addition.
  pub padded_accepted :
      (n : Node) (t : Transaction) (outs : List TransactionOutput)
      → chk_tx (some t) n ≡ ok true
      → paid outs % u32_mod ≡ 0
      → Tx.sz (padded t outs) ≤ n.conf.mx_blk_sz
      → (chk_tx (some (padded t outs)) n ≡ ok true)
        × (paid (padded t outs).outputs ≡ paid t.outputs + paid outs)
  unfolding sum_inputs
  padded_accepted n t outs accepted wraps fits =
      let s = (chk_tx_iff t n).0 accepted in
      let same = sum_outputs-padded t outs wraps in
      (
        (chk_tx_iff (padded t outs) n).1 (record {
          pays = omega (arith, same, s.pays);
          covered = omega (arith, same, s.covered);
          unlocked = s.unlocked;
          fits = fits;
        }),
        paid_append t.outputs outs,
      )
