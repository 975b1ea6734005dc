-- ===== src/Node/Validation/Unbacked.antt =====
-- What `ChkTx` does not compare: what an input claims with the output that it names, the inputs with
-- each other, and a signature with the transaction that it stands in.
pub mod Tests
use csci1951l_cryptocurrency.Prelude.{
  ℕ, ◌+◌, ◌≤◌, ◌<◌, List, [], ◌∷◌, true, false, some, All, All-get_elem?, get_elem?, ◌≡◌, refl, ◌∙◌,
  arith,
}
use csci1951l_cryptocurrency.Prelude.Word.{u32_mod}
use csci1951l_cryptocurrency.Prelude.Result.{ok}
use csci1951l_cryptocurrency.Text.{Bytes}
use csci1951l_cryptocurrency.Text.Hex.{encode_to_string}
use csci1951l_cryptocurrency.Crypto.{Crypto, IsSum256, IsKeyPair}
use csci1951l_cryptocurrency.Crypto.Id.{SimpleId}
use csci1951l_cryptocurrency.Dict.{lookup}
use csci1951l_cryptocurrency.Proto.Sizes.{sz_of_tx_lem}
use csci1951l_cryptocurrency.Tx
use csci1951l_cryptocurrency.Tx.{Transaction, sum_inputs, sum_outputs}
use csci1951l_cryptocurrency.Tx.Sums.{sum_inputs_lem, sum_outputs_lem}
use csci1951l_cryptocurrency.Tx.Txi.{TransactionInput}
use csci1951l_cryptocurrency.Tx.Txo.{TransactionOutput, mk_txo_loc}
use csci1951l_cryptocurrency.Tx.Txo.Signature.{is_unlckd-mk_sig}
use csci1951l_cryptocurrency.Blockchain.{Blockchain, last_utxo, get_utxo}
use csci1951l_cryptocurrency.Node.{Node}
use csci1951l_cryptocurrency.Node.Validation.{chk_tx}
use csci1951l_cryptocurrency.Node.Validation.Transactions.{IsUnlocking, IsSpendable, chk_tx_iff}

-- A transaction that names one output, claims an amount, and pays the amount to a key.
abbrev pub unbacked : Bytes → ℕ → Bytes → ℕ → Bytes → Transaction
unbacked h i sig a to = record {
  version = 0;
  inputs =
      record { transaction_hash = h; output_index = i; unlocking_script = sig; amount = a } ∷ [];
  outputs = record { amount = a; locking_script = to; liminal = false } ∷ [];
  lock_time = 0;
}

sum_outputs-unbacked :
    (h : Bytes) (i : ℕ) (sig : Bytes) (a : ℕ) (to : Bytes)
    → a < u32_mod
    → sum_outputs (unbacked h i sig a to) ≡ a
sum_outputs-unbacked h i sig a to small =
    sum_outputs_lem (unbacked h i sig a to) (omega arith) ∙ omega arith

sum_inputs-unbacked :
    (h : Bytes) (i : ℕ) (sig : Bytes) (a : ℕ) (to : Bytes)
    → a < u32_mod
    → sum_inputs (unbacked h i sig a to) ≡ a
sum_inputs-unbacked h i sig a to small =
    sum_inputs_lem (unbacked h i sig a to) (omega arith) ∙ omega arith

sz-unbacked :
    (h : Bytes) (i : ℕ) (sig : Bytes) (a : ℕ) (to : Bytes) → Tx.sz (unbacked h i sig a to) ≡ 68
unfolding Tx.sz Tx.serialize
sz-unbacked h i sig a to = sz_of_tx_lem (Tx.serialize (unbacked h i sig a to)) (omega arith)

module _ ⦃crypto : Crypto⦄ where
  -- An identity with a key pair has an unspent output at a node, whatever its amount, and a block has
  -- room for 68 bytes. Then for every positive amount below 2 ^ 32 and every key there is a
  -- transaction that the node accepts, which names that output alone and pays the amount to the key.
  pub unbacked_accepted :
      (n : Node) (id : SimpleId) (sk : crypto.PrivateKey) (pk : crypto.PublicKey) (h : Bytes)
      (i : ℕ) (o : TransactionOutput) (a : ℕ) (to : Bytes)
      → IsSum256
      → IsKeyPair sk pk id.public_key_bytes
      → id.private_key ≡ some sk
      → lookup (mk_txo_loc h i) (last_utxo n.chain) ≡ some o
      → o.locking_script ≡ encode_to_string id.public_key_bytes
      → 0 < a
      → a < u32_mod
      → 68 ≤ n.conf.mx_blk_sz
      → (sig : Bytes) × (chk_tx (some (unbacked h i sig a to)) n ≡ ok true)
        × (sum_outputs (unbacked h i sig a to) ≡ a)
  unfolding get_utxo
  unbacked_accepted n id sk pk h i o a to law pair has_key unspent locked pos small room =
      let (sig, signed, unlocks) = is_unlckd-mk_sig [] o id sk pk law pair has_key locked in
      let paid = sum_outputs-unbacked h i sig a to small in
      let spendable : IsSpendable n (unbacked h i sig a to) = record {
        pays = omega (arith, paid);
        covered = omega (arith, paid, sum_inputs-unbacked h i sig a to small);
        unlocked = (record { out = o; unspent = unspent; unlocks = unlocks }, tt);
        fits = omega (arith, sz-unbacked h i sig a to);
      } in
      (sig, (chk_tx_iff (unbacked h i sig a to) n).1 spendable, paid)

  -- An input that names the output that one of these inputs names, with the same script.
  pub record IsReuse (ins : List TransactionInput) (i : TransactionInput) : Type 0 where
    pub at : ℕ
    pub old : TransactionInput
    pub there : get_elem? ins at ≡ some old
    pub same_hash : i.transaction_hash ≡ old.transaction_hash
    pub same_index : i.output_index ≡ old.output_index
    pub same_script : i.unlocking_script ≡ old.unlocking_script

  IsReuse-IsUnlocking :
      (chain : Blockchain) (ins : List TransactionInput) (i : TransactionInput)
      → All (IsUnlocking chain) ins
      → IsReuse ins i
      → IsUnlocking chain i
  unfolding get_utxo
  IsReuse-IsUnlocking chain ins i all r =
      let u = All-get_elem? (IsUnlocking chain) ins r.at r.old all r.there in
      record {
        out = u.out;
        unspent = rw (r.same_hash, r.same_index) u.unspent;
        unlocks = rw r.same_script u.unlocks;
      }

  All-IsReuse :
      (chain : Blockchain) (ins news : List TransactionInput)
      → All (IsUnlocking chain) ins
      → All (IsReuse ins) news
      → All (IsUnlocking chain) news
  All-IsReuse chain ins [] all reuse = tt
  All-IsReuse chain ins (i ∷ news) all reuse =
      (IsReuse-IsUnlocking chain ins i all reuse.0, All-IsReuse chain ins news all reuse.1)

  -- A node accepts a transaction. Then it accepts every transaction that pays something, pays no more
  -- than its inputs claim and is within the block size, and whose inputs name outputs of the first
  -- one's inputs with the same scripts: whatever amounts they claim, however often they name one
  -- output, and whomever the outputs pay.
  pub reused_accepted :
      (n : Node) (t t' : Transaction)
      → chk_tx (some t) n ≡ ok true
      → All (IsReuse t.inputs) t'.inputs
      → 0 < sum_outputs t'
      → sum_outputs t' ≤ sum_inputs t'
      → Tx.sz t' ≤ n.conf.mx_blk_sz
      → chk_tx (some t') n ≡ ok true
  reused_accepted n t t' accepted reuse pays covered fits =
      let s = (chk_tx_iff t n).0 accepted in
      (chk_tx_iff t' n).1 (record {
        pays = pays;
        covered = covered;
        unlocked = All-IsReuse n.chain t.inputs t'.inputs s.unlocked reuse;
        fits = fits;
      })
