-- ===== src/Wallet.antt =====
-- BrunoCoin/pkg/wallet/wallet.go. A method gives the new wallet and the transactions that it sent to
-- the node, in order. The chain that the wallet shares with the node is an argument and a result.
pub mod Config
pub mod LiminalTxs
pub mod Payment
pub mod Requests
pub mod Resend
pub mod Tests
use csci1951l_cryptocurrency.Prelude.{
  ℕ, zero, suc, ◌+◌, List, [], ◌∷◌, map, Bool, true, false, not, Option, none, some, ltb, ◌==◌,
  if◌then◌else◌,
}
use csci1951l_cryptocurrency.Prelude.Word.{add32}
use csci1951l_cryptocurrency.Prelude.Result.{Result, ok, panic, ◌>>=◌}
use csci1951l_cryptocurrency.Text.{Bytes}
use csci1951l_cryptocurrency.Text.Hex.{encode_to_string}
use csci1951l_cryptocurrency.Crypto.{Crypto}
use csci1951l_cryptocurrency.Crypto.Id.{SimpleId}
use csci1951l_cryptocurrency.Proto
use csci1951l_cryptocurrency.Tx
use csci1951l_cryptocurrency.Tx.{Transaction}
use csci1951l_cryptocurrency.Tx.Txo.{mk_sig}
use csci1951l_cryptocurrency.Block.{Block}
use csci1951l_cryptocurrency.Blockchain.{Blockchain, UtxoInfo, get_utxo_for_amt}

pub record TxReq : Type 0 where
  pub pub_k : Bytes
  pub amt : ℕ
  pub fee : ℕ

module _ ⦃crypto : Crypto⦄ where
  pub record Wallet : Type 0 where
    pub conf : Config.Config
    pub id : SimpleId
    pub lmnl_txs : LiminalTxs.LiminalTxs
    pub addr : Bytes

  unfoldable pub set_addr : Bytes → Wallet → Wallet
  set_addr a w = record w { addr = a }

  unfoldable pub new : Config.Config → SimpleId → Option Wallet
  new c id =
      if not c.has_wt
      then none
      else some (record { conf = c; id = id; lmnl_txs = LiminalTxs.new_lmnl_txs c; addr = [] })

  -- The loop of `HndlBlk`: an old transaction gets a new lock time, and so a new hash.
  resend : List Transaction → LiminalTxs.LiminalTxs → List Transaction × LiminalTxs.LiminalTxs
  resend [] l = ([], l)
  resend (t ∷ ts) l =
      let t' = record t { lock_time = add32 t.lock_time 1 } in
      let (sent, l') = resend ts (LiminalTxs.add (some t') l) in (t' ∷ sent, l')

  pub hndl_blk : Option Block → Wallet → Wallet × List Transaction
  hndl_blk none w = (w, [])
  hndl_blk (some b) w =
      let (old, duplicates, l) = LiminalTxs.chk_txs (map some b.transactions) w.lmnl_txs in
      let (sent, l') = resend old l in (record w { lmnl_txs = l' }, sent)

  -- The inputs for the outputs found, each signed; `rng` is what each signing draws.
  mk_inpts : (ℕ → Bytes) → SimpleId → List UtxoInfo → Result (List Proto.TransactionInput)
  mk_inpts rng id [] = ok []
  mk_inpts rng id (ut ∷ utxo) = do
    sig ← mk_sig (rng 0) ut.utxo id
    inpts ← mk_inpts (λ i. rng (i + 1)) id utxo
    ok (Proto.new_tx_inpt ut.tx_hsh ut.out_idx sig ut.amt ∷ inpts)

  -- The payment, and the change if there is any.
  mk_outpts : TxReq → ℕ → SimpleId → List Proto.TransactionOutput
  mk_outpts tx_r change id =
      Proto.new_tx_outpt tx_r.amt (encode_to_string tx_r.pub_k)
      ∷ (if ltb 0 change
          then Proto.new_tx_outpt change (encode_to_string id.public_key_bytes) ∷ []
          else [])

  -- The transaction of `HndlTxReq` for the outputs found.
  mk_tx : (ℕ → Bytes) → TxReq → List UtxoInfo × ℕ → Wallet → Result Transaction
  mk_tx rng tx_r (utxo, change) w = do
    inpts ← mk_inpts rng w.id utxo
    ok (
        Tx.deserialize
          (Proto.new_tx w.conf.tx_ver inpts (mk_outpts tx_r change w.id) w.conf.def_lck_tm))

  -- `HndlTxReq` after the chain was asked.
  pay :
      (ℕ → Bytes)
      → TxReq
      → Wallet
      → Option (List UtxoInfo × ℕ) × Blockchain
      → Result (Wallet × Blockchain × List Transaction)
  pay rng tx_r w (none, chain) = ok (w, chain, [])
  pay rng tx_r w (some found, chain) = do
    t ← mk_tx rng tx_r found w
    ok (record w { lmnl_txs = LiminalTxs.add (some t) w.lmnl_txs }, chain, t ∷ [])

  pub hndl_tx_req :
      (ℕ → Bytes) → TxReq → Wallet → Blockchain → Result (Wallet × Blockchain × List Transaction)
  hndl_tx_req rng tx_r w chain =
      let asked =
        get_utxo_for_amt (add32 tx_r.amt tx_r.fee) (encode_to_string w.id.public_key_bytes) chain
        >>= pay rng tx_r w in
      if tx_r.amt == 0 then ok (w, chain, []) else asked
