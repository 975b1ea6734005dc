-- ===== src/Wallet/Payment/Cases.antt =====
-- `HndlTxReq`: when it pays, and what is left to be spent.
use csci1951l_cryptocurrency.Prelude.{
  ℕ, ◌+◌, ◌*◌, ◌≤◌, ◌<◌, [], ◌∷◌, true, false, none, some, ◌≡◌, arith, inl, inr, ◌⊎◌, ◌==◌,
}
use csci1951l_cryptocurrency.Prelude.Word.{u32_mod, add32}
use csci1951l_cryptocurrency.Prelude.Result.{ok}
use csci1951l_cryptocurrency.Text.{Bytes}
use csci1951l_cryptocurrency.Crypto.{Crypto, IsSum256, IsKeyPair}
use csci1951l_cryptocurrency.Tx.{Transaction, sum_inputs, sum_outputs}
use csci1951l_cryptocurrency.Blockchain.{Blockchain, last_utxo, get_utxo_len, get_utxo_for_amt}
use csci1951l_cryptocurrency.Blockchain.Balance.{total}
use csci1951l_cryptocurrency.Blockchain.Canonical.{IsCanonical}
use csci1951l_cryptocurrency.Blockchain.Range.Complete.{spendable, spendable-le}
use csci1951l_cryptocurrency.Blockchain.Funds.{get_utxo_for_amt_lem}
use csci1951l_cryptocurrency.Blockchain.Funds.Complete.{get_utxo_for_amt_cases}
use csci1951l_cryptocurrency.Node.{Node}
use csci1951l_cryptocurrency.Node.Validation.{chk_tx}
use csci1951l_cryptocurrency.Wallet.{Wallet, TxReq, hndl_tx_req, pay}
use csci1951l_cryptocurrency.Wallet.Payment.{key_of, remember, hndl_tx_req_accepted}

module _ ⦃crypto : Crypto⦄ where
  -- What the wallet can still spend on a chain.
  pub funds : Wallet → Blockchain → ℕ
  funds w chain = spendable (key_of w.id) (last_utxo chain)

  -- The wallet sends one transaction and keeps it. Its inputs claim what its outputs pay and the fee,
  -- this is what the wallet can spend less, and the node accepts it.
  pub record IsPaid (rng : ℕ → Bytes) (req : TxReq) (w : Wallet) (n : Node) : Type 0 where
    pub changed : Blockchain
    pub t : Transaction
    pub sent : hndl_tx_req rng req w n.chain ≡ ok (remember t w, changed, t ∷ [])
    pub balanced : sum_inputs t ≡ sum_outputs t + req.fee
    pub spent : funds w changed + sum_inputs t ≡ funds w n.chain
    pub accepted : chk_tx (some t) (record n { chain = changed }) ≡ ok true

  -- The wallet sends nothing, and can spend nothing more.
  pub record IsRefused (rng : ℕ → Bytes) (req : TxReq) (w : Wallet) (n : Node) : Type 0 where
    pub changed : Blockchain
    pub silent : hndl_tx_req rng req w n.chain ≡ ok (w, changed, [])
    pub nothing : funds w changed ≡ 0

  hndl_tx_req_refused :
      (rng : ℕ → Bytes) (req : TxReq) (w : Wallet) (chain chain' : Blockchain)
      → 0 < req.amt
      → req.amt + req.fee < u32_mod
      → get_utxo_for_amt (req.amt + req.fee) (key_of w.id) chain ≡ ok (none, chain')
      → hndl_tx_req rng req w chain ≡ ok (w, chain', [])
  unfolding hndl_tx_req pay
  hndl_tx_req_refused rng req w chain chain' pos small refused =
      let some_amt : (req.amt == 0) ≡ false = ground arith in
      let asked : add32 req.amt req.fee ≡ req.amt + req.fee = omega arith in
      rw (some_amt, asked, refused)

  -- An identity with a key pair asks for a positive amount, which with the fee is below 2 ^ 32, on
  -- the chain of a node whose last map has locators as its keys, each once, and less than 2 ^ 32 in
  -- the outputs of the identity, for each of which 40 bytes and 48 more fit into a block. Where its
  -- outputs that are not marked are worth the amount and the fee, the wallet sends one transaction,
  -- and keeps it; its inputs claim what its outputs pay and the fee, the wallet can spend as much
  -- less, and the node accepts it. Otherwise the wallet sends nothing, and can spend nothing more.
  pub hndl_tx_req_cases :
      (rng : ℕ → Bytes) (req : TxReq) (w : Wallet) (n : Node) (sk : crypto.PrivateKey)
      (pk : crypto.PublicKey)
      → IsSum256
      → IsKeyPair sk pk w.id.public_key_bytes
      → w.id.private_key ≡ some sk
      → IsCanonical (last_utxo n.chain)
      → total (key_of w.id) (last_utxo n.chain) < u32_mod
      → 0 < req.amt
      → req.amt + req.fee < u32_mod
      → 40 * get_utxo_len (key_of w.id) n.chain + 48 ≤ n.conf.mx_blk_sz
      → n.conf.mx_blk_sz < u32_mod
      → ((req.amt + req.fee ≤ funds w n.chain) × IsPaid rng req w n)
        ⊎ ((funds w n.chain < req.amt + req.fee) × IsRefused rng req w n)
  unfolding funds
  hndl_tx_req_cases rng req w n sk pk law pair has_key canonical few pos small room word =
      let key = key_of w.id in
      let less = spendable-le key (last_utxo n.chain) in
      elim (get_utxo_for_amt_cases (req.amt + req.fee) key n.chain canonical
        (omega (arith, less))) [
          | inl (enough, met) ↦
              let (t, sent, balanced, worth, accepted) =
                hndl_tx_req_accepted rng req w n.chain (record n { chain = met.changed }) met.infos
                  met.change sk pk law pair has_key canonical few pos small met.found
                  (omega (arith, room, met.few)) word in
              let (exact, payable, kept) =
                get_utxo_for_amt_lem (req.amt + req.fee) met.change key n.chain met.changed
                  met.infos met.found few in
              inl (
                enough,
                record {
                  changed = met.changed;
                  t = t;
                  sent = sent;
                  balanced = balanced;
                  spent = omega (arith, worth, exact, met.rest);
                  accepted = accepted;
                },
              )
          | inr (less_than, short) ↦ inr (
            less_than,
            record {
              changed = short.changed;
              silent = hndl_tx_req_refused rng req w n.chain short.changed pos small short.refused;
              nothing = short.nothing;
            },
          )
        ]
