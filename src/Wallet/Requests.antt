-- ===== src/Wallet/Requests.antt =====
-- What `HndlTxReq` does to the chain that the wallet shares.
use csci1951l_cryptocurrency.Prelude.{
  ℕ, List, Option, none, some, ◌≡◌, subst, ap, Bool-cases, inl, inr, ◌⊎◌, ◌==◌,
}
use csci1951l_cryptocurrency.Prelude.Word.{add32}
use csci1951l_cryptocurrency.Prelude.Result.{ok, >>=-eq-ok, ok-injective}
use csci1951l_cryptocurrency.Text.{Bytes}
use csci1951l_cryptocurrency.Text.Hex.{encode_to_string}
use csci1951l_cryptocurrency.Crypto.{Crypto}
use csci1951l_cryptocurrency.Tx.{Transaction}
use csci1951l_cryptocurrency.Blockchain.{Blockchain, UtxoInfo, get_utxo_for_amt}
use csci1951l_cryptocurrency.Wallet.{Wallet, TxReq, mk_tx, pay, hndl_tx_req}

module _ ⦃crypto : Crypto⦄ where
  pay-chain :
      (rng : ℕ → Bytes) (req : TxReq) (w : Wallet) (found : Option (List UtxoInfo × ℕ))
      (chain : Blockchain) (paid : Wallet × Blockchain × List Transaction)
      → pay rng req w (found, chain) ≡ ok paid
      → chain ≡ paid.1
  unfolding pay
  pay-chain rng req w none chain paid e = ap (λ p. p.1) (ok-injective e)
  pay-chain rng req w (some found) chain paid e =
      let (t, made, e') = >>=-eq-ok (mk_tx rng req found w) _ e in ap (λ p. p.1) (ok-injective e')

  -- It leaves the chain as it was, or as a request for outputs left it.
  pub hndl_tx_req-chain :
      (rng : ℕ → Bytes) (req : TxReq) (w : Wallet) (chain : Blockchain)
      (paid : Wallet × Blockchain × List Transaction)
      → hndl_tx_req rng req w chain ≡ ok paid
      → (chain ≡ paid.1)
        ⊎ ((found : Option (List UtxoInfo × ℕ)) × (get_utxo_for_amt
                (add32 req.amt req.fee)
                (encode_to_string w.id.public_key_bytes)
                chain
              ≡ ok (found, paid.1)))
  unfolding hndl_tx_req
  hndl_tx_req-chain rng req w chain paid e = elim (Bool-cases (req.amt == 0)) [
    | inl nothing ↦ inl (ap (λ p. p.1) (ok-injective (rw (hndl_tx_req, nothing) at e)))
    | inr some_amt ↦
        let ((found, chain'), asked, e') =
          >>=-eq-ok
            (get_utxo_for_amt (add32 req.amt req.fee) (encode_to_string w.id.public_key_bytes)
              chain)
            _ (rw (hndl_tx_req, some_amt) at e) in
        inr (
          found,
          subst
              (λ (c : Blockchain).
                get_utxo_for_amt (add32 req.amt req.fee) (encode_to_string w.id.public_key_bytes)
                  chain
                ≡ ok (found, c))
              (pay-chain rng req w found chain' paid e') asked,
        )
  ]
