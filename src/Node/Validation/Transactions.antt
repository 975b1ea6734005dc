-- ===== src/Node/Validation/Transactions.antt =====
-- What `ChkTx` accepts.
use csci1951l_cryptocurrency.Prelude.{
  ◌≤◌, ◌<◌, List, [], ◌∷◌, true, false, some, ◌≡◌, ◌↔◌, refl, arith, ltb, ◌==◌, All, Bool-cases,
  Option-cases, inl, inr,
}
use csci1951l_cryptocurrency.Prelude.Result.{ok, >>=-eq-ok, ok-injective}
use csci1951l_cryptocurrency.Dict.{contains}
use csci1951l_cryptocurrency.Crypto.{Crypto}
use csci1951l_cryptocurrency.Tx
use csci1951l_cryptocurrency.Tx.{Transaction, sum_inputs, sum_outputs}
use csci1951l_cryptocurrency.Tx.Txi.{TransactionInput}
use csci1951l_cryptocurrency.Tx.Txo.{TransactionOutput, is_unlckd}
use csci1951l_cryptocurrency.Blockchain.{Blockchain, is_invalid_input, get_utxo}
use csci1951l_cryptocurrency.Node.{Node}
use csci1951l_cryptocurrency.Node.Validation.{chk_input, chk_inputs, chk_tx}

module _ ⦃crypto : Crypto⦄ where
  -- The input names an unspent output on the last block's map, and unlocks it.
  pub record IsUnlocking (chain : Blockchain) (txi : TransactionInput) : Type 0 where
    pub out : TransactionOutput
    pub unspent : get_utxo txi chain ≡ some out
    pub unlocks : is_unlckd out txi.unlocking_script ≡ ok true

  chk_input-IsUnlocking :
      (txi : TransactionInput) (chain : Blockchain)
      → chk_input txi chain ≡ ok true
      → IsUnlocking chain txi
  unfolding chk_input
  chk_input-IsUnlocking txi chain e = elim (Bool-cases (is_invalid_input txi chain)) [
    | inl invalid ↦ absurd (ground (arith, rw invalid at e))
    | inr valid ↦ elim (Option-cases (get_utxo txi chain)) [
      | inl missing ↦ absurd (ground (arith, rw (valid, missing) at e))
      | inr (o, found) ↦ record { out = o; unspent = found; unlocks = rw (valid, found) at e }
    ]
  ]

  known_input :
      (txi : TransactionInput) (chain : Blockchain) (o : TransactionOutput)
      → get_utxo txi chain ≡ some o
      → is_invalid_input txi chain ≡ false
  unfolding get_utxo is_invalid_input contains
  known_input txi chain o found = ground (arith, found)

  IsUnlocking-chk_input :
      (txi : TransactionInput) (chain : Blockchain)
      → IsUnlocking chain txi
      → chk_input txi chain ≡ ok true
  unfolding chk_input
  IsUnlocking-chk_input txi chain u =
      rw (known_input txi chain u.out u.unspent, u.unspent) u.unlocks

  chk_inputs_iff :
      (ins : List TransactionInput) (chain : Blockchain)
      → (chk_inputs ins chain ≡ ok true) ↔ All (IsUnlocking chain) ins
  unfolding chk_inputs
  chk_inputs_iff [] chain = (λ e. tt, λ h. refl)
  chk_inputs_iff (i ∷ ins) chain = (
    λ e.
        let (valid, first, e') = >>=-eq-ok (chk_input i chain) _ e in
        elim (Bool-cases valid) [
          | inl is_valid ↦ (
            chk_input-IsUnlocking i chain (rw is_valid at first),
            (chk_inputs_iff ins chain).0 (rw is_valid at e'),
          )
          | inr is_invalid ↦ absurd (ground (arith, rw is_invalid at e'))
        ],
    λ h. rw (IsUnlocking-chk_input i chain h.0, (chk_inputs_iff ins chain).1 h.1),
  )

  -- What `ChkTx` asks of a transaction: it pays something, its inputs claim at least what it pays,
  -- each input unlocks an unspent output, and it is no larger than a block.
  pub record IsSpendable (n : Node) (t : Transaction) : Type 0 where
    pub pays : 0 < sum_outputs t
    pub covered : sum_outputs t ≤ sum_inputs t
    pub unlocked : All (IsUnlocking n.chain) t.inputs
    pub fits : Tx.sz t ≤ n.conf.mx_blk_sz

  chk_tx-IsSpendable : (t : Transaction) (n : Node) → chk_tx (some t) n ≡ ok true → IsSpendable n t
  unfolding chk_tx
  chk_tx-IsSpendable t n e = elim (Bool-cases (sum_outputs t == 0)) [
    | inl empty ↦ absurd (ground (arith, rw empty at e))
    | inr pays ↦ elim (Bool-cases (ltb (sum_inputs t) (sum_outputs t))) [
      | inl less ↦ absurd (ground (arith, rw (pays, less) at e))
      | inr enough ↦
          let (unlocked, checked, e') =
            >>=-eq-ok (chk_inputs t.inputs n.chain) _ (rw (pays, enough) at e) in
          let ends = ok-injective e' in
          let all : unlocked ≡ true = ground arith in
          record {
            pays = ground arith;
            covered = ground arith;
            unlocked = (chk_inputs_iff t.inputs n.chain).0 (rw all at checked);
            fits = ground arith;
          }
    ]
  ]

  IsSpendable-chk_tx : (t : Transaction) (n : Node) → IsSpendable n t → chk_tx (some t) n ≡ ok true
  unfolding chk_tx
  IsSpendable-chk_tx t n s =
      let checked = (chk_inputs_iff t.inputs n.chain).1 s.unlocked in
      let pays : (sum_outputs t == 0) ≡ false = ground (arith, s.pays) in
      let enough : ltb (sum_inputs t) (sum_outputs t) ≡ false = ground (arith, s.covered) in
      let fits : ltb n.conf.mx_blk_sz (Tx.sz t) ≡ false = ground (arith, s.fits) in
      rw (pays, enough, checked, fits)

  -- A transaction is accepted by ChkTx exactly if the sum of its outputs, as a uint32, is not 0, the
  -- sum that its inputs claim is equal to it or larger, each input names an unspent output and unlocks
  -- it, whatever the other inputs name, and its size is within the block size.
  pub chk_tx_iff : (t : Transaction) (n : Node) → (chk_tx (some t) n ≡ ok true) ↔ IsSpendable n t
  chk_tx_iff t n = (chk_tx-IsSpendable t n, IsSpendable-chk_tx t n)
