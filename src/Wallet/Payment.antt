-- ===== src/Wallet/Payment.antt =====
-- `HndlTxReq`: the transaction it makes, and what the check of the node says of it.
pub mod Cases
use csci1951l_cryptocurrency.Prelude.{
  ℕ, suc, ◌+◌, ◌*◌, ◌≤◌, ◌<◌, List, [], ◌∷◌, map, true, false, some, ◌≡◌, refl, ap, ◌∙◌, arith, All,
  length, Bool-cases, inl, inr, ltb, ◌==◌,
}
use csci1951l_cryptocurrency.Prelude.Word.{u32_mod, add32}
use csci1951l_cryptocurrency.Prelude.Result.{ok}
use csci1951l_cryptocurrency.Text.{Bytes}
use csci1951l_cryptocurrency.Text.Hex.{encode_to_string}
use csci1951l_cryptocurrency.Crypto.{Crypto, IsSum256, IsKeyPair}
use csci1951l_cryptocurrency.Crypto.Id.{SimpleId}
use csci1951l_cryptocurrency.Proto
use csci1951l_cryptocurrency.Proto.Sizes.{sz_of_tx_lem}
use csci1951l_cryptocurrency.Tx
use csci1951l_cryptocurrency.Tx.{Transaction, sum_inputs, sum_outputs}
use csci1951l_cryptocurrency.Tx.Sums.{claimed, paid, sum_inputs_lem, sum_outputs_lem}
use csci1951l_cryptocurrency.Tx.RoundTrip.{serialize-deserialize}
use csci1951l_cryptocurrency.Tx.Txi
use csci1951l_cryptocurrency.Tx.Txo
use csci1951l_cryptocurrency.Tx.Txo.{mk_sig}
use csci1951l_cryptocurrency.Tx.Txo.Signature.{is_unlckd-mk_sig}
use csci1951l_cryptocurrency.Blockchain.{
  Blockchain, UtxoInfo, last_utxo, get_utxo, get_utxo_for_amt,
}
use csci1951l_cryptocurrency.Blockchain.Balance.{total}
use csci1951l_cryptocurrency.Blockchain.Canonical.{IsCanonical}
use csci1951l_cryptocurrency.Blockchain.Range.{sum_amts, IsPayable}
use csci1951l_cryptocurrency.Blockchain.Range.Recorded.{IsRecorded}
use csci1951l_cryptocurrency.Blockchain.Funds.{
  get_utxo_for_amt_lem, get_utxo_for_amt-fits, get_utxo_for_amt-IsRecorded,
}
use csci1951l_cryptocurrency.Node.{Node}
use csci1951l_cryptocurrency.Node.Validation.{chk_tx}
use csci1951l_cryptocurrency.Node.Validation.Transactions.{IsUnlocking, IsSpendable, chk_tx_iff}
use csci1951l_cryptocurrency.Wallet.LiminalTxs
use csci1951l_cryptocurrency.Wallet.{Wallet, TxReq, mk_inpts, mk_outpts, mk_tx, pay, hndl_tx_req}

module _ ⦃crypto : Crypto⦄ where
  -- The inputs that `mk_inpts` makes for outputs of a chain.
  record IsSigned (chain : Blockchain) (infos : List UtxoInfo) (inpts : List Proto.TransactionInput)
      : Type 0 where
    unlocking : All (IsUnlocking chain) (map Txi.deserialize inpts)
    count : length inpts ≡ length infos
    worth : claimed (map Txi.deserialize inpts) ≡ sum_amts infos

  -- The key that the identity's outputs are locked to.
  abbrev pub key_of : SimpleId → Bytes
  key_of id = encode_to_string id.public_key_bytes

  module _ (id : SimpleId) (sk : crypto.PrivateKey) (pk : crypto.PublicKey) (law : IsSum256)
      (pair : IsKeyPair sk pk id.public_key_bytes) (has_key : id.private_key ≡ some sk) where
    mk_inpts-IsSigned :
        (rng : ℕ → Bytes) (chain : Blockchain) (infos : List UtxoInfo)
        → All (IsPayable (key_of id)) infos
        → All (IsRecorded (last_utxo chain)) infos
        → (inpts : List Proto.TransactionInput) × (mk_inpts rng id infos ≡ ok inpts)
          × IsSigned chain infos inpts
    unfolding mk_inpts Txi.deserialize Proto.new_tx_inpt get_utxo
    mk_inpts-IsSigned rng chain [] payable recorded =
        ([], refl, record { unlocking = tt; count = refl; worth = refl })
    mk_inpts-IsSigned rng chain (i ∷ is) payable recorded =
        let (sig, signed, unlocks) =
          is_unlckd-mk_sig (rng 0) i.utxo id sk pk law pair has_key payable.0.pays in
        let (rest, made, f) = mk_inpts-IsSigned (λ j. rng (j + 1)) chain is payable.1 recorded.1 in
        (
          Proto.new_tx_inpt i.tx_hsh i.out_idx sig i.amt ∷ rest,
          rw (signed, made),
          record {
            unlocking =
                (record { out = i.utxo; unspent = recorded.0; unlocks = unlocks }, f.unlocking);
            count = ap suc f.count;
            worth = ap (λ (n : ℕ). i.amt + n) f.worth;
          },
        )

  -- The outputs pay the amount and the change.
  paid-mk_outpts :
      (req : TxReq) (change : ℕ) (id : SimpleId)
      → paid (map Txo.deserialize (mk_outpts req change id)) ≡ req.amt + change
  unfolding mk_outpts Txo.deserialize Proto.new_tx_outpt
  paid-mk_outpts req change id = elim (Bool-cases (ltb 0 change)) [
    | inl more ↦ rw more (omega arith)
    | inr nothing ↦ rw nothing (ground arith)
  ]

  length-mk_outpts :
      (req : TxReq) (change : ℕ) (id : SimpleId) → length (mk_outpts req change id) ≤ 2
  unfolding mk_outpts
  length-mk_outpts req change id = elim (Bool-cases (ltb 0 change)) [
    | inl more ↦ rw more (omega arith)
    | inr nothing ↦ rw nothing (omega arith)
  ]

  -- The wallet keeps what it sent until it is in a safe block.
  abbrev pub remember : Transaction → Wallet → Wallet
  remember t w = record w { lmnl_txs = LiminalTxs.add (some t) w.lmnl_txs }

  -- The transaction that `mk_tx` makes from its inputs.
  made_of : Wallet → TxReq → ℕ → List Proto.TransactionInput → Transaction
  made_of w req change inpts =
      Tx.deserialize
        (Proto.new_tx w.conf.tx_ver inpts (mk_outpts req change w.id) w.conf.def_lck_tm)

  sum_inputs-made :
      (w : Wallet) (req : TxReq) (change : ℕ) (inpts : List Proto.TransactionInput)
      → claimed (map Txi.deserialize inpts) < u32_mod
      → sum_inputs (made_of w req change inpts) ≡ claimed (map Txi.deserialize inpts)
  unfolding made_of Tx.deserialize Proto.new_tx
  sum_inputs-made w req change inpts small = sum_inputs_lem (made_of w req change inpts) small

  sum_outputs-made :
      (w : Wallet) (req : TxReq) (change : ℕ) (inpts : List Proto.TransactionInput)
      → req.amt + change < u32_mod
      → sum_outputs (made_of w req change inpts) ≡ req.amt + change
  unfolding made_of Tx.deserialize Proto.new_tx
  sum_outputs-made w req change inpts small =
      let worth = paid-mk_outpts req change w.id in
      sum_outputs_lem (made_of w req change inpts) (omega (arith, worth)) ∙ worth

  -- At most 40 bytes an input, and 48 more.
  sz-made :
      (w : Wallet) (req : TxReq) (change bound : ℕ) (inpts : List Proto.TransactionInput)
      → 40 * length inpts + 48 ≤ bound
      → bound < u32_mod
      → Tx.sz (made_of w req change inpts) ≤ bound
  unfolding made_of Tx.sz Proto.new_tx
  sz-made w req change bound inpts fits small =
      let p = Proto.new_tx w.conf.tx_ver inpts (mk_outpts req change w.id) w.conf.def_lck_tm in
      let few = length-mk_outpts req change w.id in
      omega (
        arith,
        few,
        ap Proto.sz_of_tx (serialize-deserialize p),
        sz_of_tx_lem p (omega (arith, few)),
      )

  hndl_tx_req-made :
      (rng : ℕ → Bytes) (req : TxReq) (w : Wallet) (chain chain' : Blockchain)
      (infos : List UtxoInfo) (change : ℕ) (inpts : List Proto.TransactionInput)
      → 0 < req.amt
      → req.amt + req.fee < u32_mod
      → get_utxo_for_amt (req.amt + req.fee) (key_of w.id) chain ≡ ok (some (infos, change), chain')
      → mk_inpts rng w.id infos ≡ ok inpts
      → (t : Transaction) → made_of w req change inpts ≡ t
      → hndl_tx_req rng req w chain ≡ ok (remember t w, chain', t ∷ [])
  unfolding hndl_tx_req pay mk_tx made_of
  hndl_tx_req-made rng req w chain chain' infos change inpts pos small found signed t is_t =
      let some_amt : (req.amt == 0) ≡ false = ground arith in
      let asked : add32 req.amt req.fee ≡ req.amt + req.fee = omega arith in
      rw (some_amt, asked, found, signed, is_t)

  IsUnlocking-made :
      (w : Wallet) (req : TxReq) (change : ℕ) (inpts : List Proto.TransactionInput)
      (chain : Blockchain)
      → All (IsUnlocking chain) (map Txi.deserialize inpts)
      → All (IsUnlocking chain) (made_of w req change inpts).inputs
  unfolding made_of Tx.deserialize Proto.new_tx
  IsUnlocking-made w req change inpts chain all = all

  -- An identity with a key pair asks for a positive amount, which with the fee is below 2 ^ 32, on a
  -- chain whose last map has locators as its keys, each once, and less than 2 ^ 32 in the outputs of
  -- the identity. Where the outputs for both are found, the wallet sends one transaction, and keeps
  -- it. Its inputs claim what its outputs pay and the fee, and a node that shares the chain accepts
  -- it, if 40 bytes for each output found and 48 more fit into a block.
  pub hndl_tx_req_accepted :
      (rng : ℕ → Bytes) (req : TxReq) (w : Wallet) (chain : Blockchain) (n : Node)
      (infos : List UtxoInfo) (change : ℕ) (sk : crypto.PrivateKey) (pk : crypto.PublicKey)
      → IsSum256
      → IsKeyPair sk pk w.id.public_key_bytes
      → w.id.private_key ≡ some sk
      → IsCanonical (last_utxo chain)
      → total (key_of w.id) (last_utxo chain) < u32_mod
      → 0 < req.amt
      → req.amt + req.fee < u32_mod
      → get_utxo_for_amt (req.amt + req.fee) (key_of w.id) chain
        ≡ ok (some (infos, change), n.chain)
      → 40 * length infos + 48 ≤ n.conf.mx_blk_sz
      → n.conf.mx_blk_sz < u32_mod
      → (t : Transaction) × (hndl_tx_req rng req w chain ≡ ok (remember t w, n.chain, t ∷ []))
        × (sum_inputs t ≡ sum_outputs t + req.fee)
        × (sum_inputs t ≡ sum_amts infos)
        × (chk_tx (some t) n ≡ ok true)
  hndl_tx_req_accepted rng req w chain n infos change sk pk law pair has_key canonical few pos asks
        found room word =
      let key = key_of w.id in
      let (exact, payable, same) =
        get_utxo_for_amt_lem (req.amt + req.fee) change key chain n.chain infos found few in
      let small =
        get_utxo_for_amt-fits (req.amt + req.fee) change key chain n.chain infos found few in
      let recorded =
        get_utxo_for_amt-IsRecorded (req.amt + req.fee) change key chain n.chain infos found
          canonical in
      let (inpts, signed, f) =
        mk_inpts-IsSigned w.id sk pk law pair has_key rng n.chain infos payable recorded in
      let ins = sum_inputs-made w req change inpts (omega (arith, f.worth, small)) in
      let outs = sum_outputs-made w req change inpts (omega (arith, exact, small)) in
      let spendable : IsSpendable n (made_of w req change inpts) = record {
        pays = omega (arith, outs, pos);
        covered = omega (arith, ins, outs, exact, f.worth);
        unlocked = IsUnlocking-made w req change inpts n.chain f.unlocking;
        fits = sz-made w req change n.conf.mx_blk_sz inpts (omega (arith, room, f.count)) word;
      } in
      (
        made_of w req change inpts,
        hndl_tx_req-made rng req w chain n.chain infos change inpts pos asks found signed _ refl,
        omega (arith, ins, outs, exact, f.worth),
        omega (arith, ins, f.worth),
        (chk_tx_iff (made_of w req change inpts) n).1 spendable,
      )
