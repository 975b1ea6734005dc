-- ===== src/Tx/Sums.antt =====
-- The sums of a transaction, where they do not wrap around.
use csci1951l_cryptocurrency.Prelude.{ℕ, ◌+◌, ◌%◌, ◌<◌, List, [], ◌∷◌, ◌++◌, map, ◌≡◌, refl, arith}
use csci1951l_cryptocurrency.Prelude.Word.{u32_mod, add32}
use csci1951l_cryptocurrency.Tx
use csci1951l_cryptocurrency.Tx.RoundTrip.{unmark}
use csci1951l_cryptocurrency.Tx.{
  Transaction, sum_inputs_from, sum_inputs, sum_outputs_from, sum_outputs,
}
use csci1951l_cryptocurrency.Tx.Txi.{TransactionInput}
use csci1951l_cryptocurrency.Tx.Txo.{TransactionOutput}

abbrev pub claimed : List TransactionInput → ℕ
claimed [] = 0
claimed (i ∷ ins) = i.amount + claimed ins

abbrev pub paid : List TransactionOutput → ℕ
paid [] = 0
paid (o ∷ outs) = o.amount + paid outs

sum_inputs_from_lem :
    (r : ℕ) (ins : List TransactionInput)
    → r + claimed ins < u32_mod
    → sum_inputs_from r ins ≡ r + claimed ins
unfolding sum_inputs_from
sum_inputs_from_lem r [] small = omega arith
sum_inputs_from_lem r (i ∷ ins) small = ground (arith, sum_inputs_from_lem (r + i.amount) ins)

sum_outputs_from_lem :
    (r : ℕ) (outs : List TransactionOutput)
    → r + paid outs < u32_mod
    → sum_outputs_from r outs ≡ r + paid outs
unfolding sum_outputs_from
sum_outputs_from_lem r [] small = omega arith
sum_outputs_from_lem r (o ∷ outs) small = ground (arith, sum_outputs_from_lem (r + o.amount) outs)

pub sum_inputs_lem :
    (t : Transaction) → claimed t.inputs < u32_mod → sum_inputs t ≡ claimed t.inputs
unfolding sum_inputs
sum_inputs_lem t small = ground (arith, sum_inputs_from_lem 0 t.inputs)

pub sum_outputs_lem : (t : Transaction) → paid t.outputs < u32_mod → sum_outputs t ≡ paid t.outputs
unfolding sum_outputs
sum_outputs_lem t small = ground (arith, sum_outputs_from_lem 0 t.outputs)

sum_outputs_from_wrap :
    (r : ℕ) (outs : List TransactionOutput)
    → sum_outputs_from r outs % u32_mod ≡ (r + paid outs) % u32_mod
unfolding sum_outputs_from
sum_outputs_from_wrap r [] = omega arith
sum_outputs_from_wrap r (o ∷ outs) = omega (arith, sum_outputs_from_wrap (add32 r o.amount) outs)

sum_outputs_from-lt :
    (r : ℕ) (outs : List TransactionOutput) → r < u32_mod → sum_outputs_from r outs < u32_mod
unfolding sum_outputs_from
sum_outputs_from-lt r [] small = small
sum_outputs_from-lt r (o ∷ outs) small = sum_outputs_from-lt (add32 r o.amount) outs (omega arith)

-- The sum of the outputs is what they pay, wrapped.
pub sum_outputs_wrap : (t : Transaction) → sum_outputs t ≡ paid t.outputs % u32_mod
unfolding sum_outputs
sum_outputs_wrap t =
    omega (arith, sum_outputs_from_wrap 0 t.outputs, sum_outputs_from-lt 0 t.outputs (omega arith))

sum_outputs_from-unmark :
    (r : ℕ) (outs : List TransactionOutput)
    → sum_outputs_from r (map unmark outs) ≡ sum_outputs_from r outs
unfolding sum_outputs_from
sum_outputs_from-unmark r [] = refl
sum_outputs_from-unmark r (o ∷ outs) = sum_outputs_from-unmark (add32 r o.amount) outs

-- Marks on the outputs do not change what they pay.
pub sum_outputs-unmark :
    (t : Transaction) → sum_outputs (record t { outputs = map unmark t.outputs }) ≡ sum_outputs t
unfolding sum_outputs
sum_outputs-unmark t = sum_outputs_from-unmark 0 t.outputs

-- The sizes of transactions together, as an unbounded sum.
abbrev pub sum_sizes : List Transaction → ℕ
sum_sizes [] = 0
sum_sizes (t ∷ ts) = Tx.sz t + sum_sizes ts

pub paid_append : (l m : List TransactionOutput) → paid (l ++ m) ≡ paid l + paid m
paid_append [] m = omega arith
paid_append (o ∷ l) m = omega (arith, paid_append l m)
