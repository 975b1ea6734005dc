-- ===== src/Miner.antt =====
-- BrunoCoin/pkg/miner: miner.go, mine.go and mining_pool.go. A method gives the new miner and what
-- it sent on the channels, in order; a send waits for its receiver and changes nothing here.
pub mod Coinbase
pub mod Config
pub mod Mined
pub mod Supply
pub mod Returns
pub mod TxPool
pub mod Work
pub mod Soundness
pub mod Tests
use csci1951l_cryptocurrency.Prelude.{
  ℕ, zero, suc, ◌+◌, ◌/◌, List, [], ◌∷◌, ◌++◌, map, Bool, true, false, not, ◌||◌, Option, none,
  some, ltb, ◌==◌, if◌then◌else◌,
}
use csci1951l_cryptocurrency.Prelude.Word.{add32, sub32}
use csci1951l_cryptocurrency.Prelude.Result.{Result, ok, panic, ◌>>=◌}
use csci1951l_cryptocurrency.Text.{Bytes}
use csci1951l_cryptocurrency.Text.Hex.{encode_to_string}
use csci1951l_cryptocurrency.Utils.Logging.{fmt_addr}
use csci1951l_cryptocurrency.Crypto.{Crypto}
use csci1951l_cryptocurrency.Crypto.Id.{SimpleId}
use csci1951l_cryptocurrency.Proto
use csci1951l_cryptocurrency.Tx
use csci1951l_cryptocurrency.Tx.{Transaction, sum_inputs, sum_outputs}
use csci1951l_cryptocurrency.Tx.Heap
use csci1951l_cryptocurrency.Tx.Heap.{Heap}
use csci1951l_cryptocurrency.Block
use csci1951l_cryptocurrency.Block.{Block}
use csci1951l_cryptocurrency.Blockchain
use csci1951l_cryptocurrency.Blockchain.Config as ChainConfig

module _ ⦃crypto : Crypto⦄ where
  pub record Miner : Type 0 where
    pub conf : Config.Config
    pub id : SimpleId
    pub tx_p : TxPool.TxPool
    pub mining_pool : List Transaction
    pub prv_hsh : Bytes
    pub addr : Bytes
    pub chn_len : ℕ
    pub active : Bool
    pub mining : Bool

-- What is sent on `PoolUpdated` and `SendBlk`.
pub data Sent : Type 0 where
  pool_updated : Sent
  send_blk : Block → Sent

-- The loop of `NewMiningPool`, which stops at the first transaction that does not fit.
fill_pool : ℕ → ℕ → Heap → List Transaction
fill_pool lim blk_sz [] = []
fill_pool lim blk_sz (n ∷ rankings) =
    let blk_sz' = add32 blk_sz (Tx.sz n.t) in
    if ltb blk_sz' lim then n.t ∷ fill_pool lim blk_sz' rankings else []

-- The fees of `GenCBTx`.
sum_fees : ℕ → List Transaction → ℕ
sum_fees fee [] = fee
sum_fees fee (t ∷ txs) = sum_fees (add32 fee (sub32 (sum_inputs t) (sum_outputs t))) txs

-- The halvings of `GenCBTx`: at most `k` more, while `i` is below the number that is due.
halve : ℕ → ℕ → ℕ → ℕ → ℕ
halve zero i due reward = reward
halve (suc k) i due reward =
    let rest = halve k (i + 1) due (reward / 2) in if ltb i due then rest else reward

-- The transactions behind the pointers, if none is nil.
all_some : List (Option Transaction) → Option (List Transaction)
all_some [] = some []
all_some (none ∷ txs) = none
all_some (some t ∷ txs) = elim (all_some txs) [ none ↦ none | some ts ↦ some (t ∷ ts) ]

module _ ⦃crypto : Crypto⦄ where
  unfoldable pub new : Config.Config → SimpleId → Option Miner
  new c id =
      if not c.has_mnr
      then none
      else some (record {
        conf = c;
        id = id;
        tx_p = TxPool.new_tx_pool c;
        mining_pool = [];
        prv_hsh = Block.hash (Blockchain.genesis_block ChainConfig.default_config);
        addr = [];
        chn_len = 1;
        active = false;
        mining = false;
      })

  unfoldable pub set_addr : Bytes → Miner → Miner
  set_addr a m = record m { addr = a }

  unfoldable pub set_hash : Bytes → Miner → Miner
  set_hash h m = record m { prv_hsh = h }

  unfoldable pub set_chn_len : ℕ → Miner → Miner
  set_chn_len l m = record m { chn_len = l }

  unfoldable pub inc_chn_len : Miner → Miner
  inc_chn_len m = record m { chn_len = add32 m.chn_len 1 }

  -- The goroutine that `StartMiner` starts is `mine_round`, once for each update that it receives.
  unfoldable pub start_miner : Miner → Miner × List Sent
  start_miner m = (record m { active = true }, pool_updated ∷ [])

  -- Both print the address.
  unfoldable pub pause : Miner → Result (Miner × List Sent)
  pause m = do text ← fmt_addr m.addr; ok (record m { active = false }, pool_updated ∷ [])

  unfoldable pub resume : Miner → Result (Miner × List Sent)
  resume m = do text ← fmt_addr m.addr; ok (record m { active = true }, pool_updated ∷ [])

  -- `if m.Active.Load() { m.PoolUpdated <- true }`
  abbrev update_if_active : Miner → List Sent
  update_if_active m = if m.active then pool_updated ∷ [] else []

  pub hndl_chk_blk : Block → Miner → Miner × List Sent
  hndl_chk_blk b m =
      let m' = record m { tx_p = TxPool.chk_txs (map some b.transactions) m.tx_p } in
      (m', update_if_active m')

  pub hndl_blk : Option Block → Miner → Miner × List Sent
  hndl_blk none m = (m, [])
  hndl_blk (some b) m =
      let (m', sent) = hndl_chk_blk b m in (inc_chn_len (set_hash (Block.hash b) m'), sent)

  pub hndl_tx : Option Transaction → Miner → Miner × List Sent
  hndl_tx none m = (m, [])
  hndl_tx (some t) m =
      let m' = record m { tx_p = TxPool.add (some t) m.tx_p } in (m', update_if_active m')

  -- 100 bytes are kept for the coinbase transaction.
  pub new_mining_pool : Miner → List Transaction
  unfolding fill_pool
  new_mining_pool m = fill_pool m.conf.blk_sz 100 m.tx_p.tx_q

  unfoldable pub dif_trg : Miner → Bytes
  dif_trg m = m.conf.init_powd

  -- The fees and the minting reward of `GenCBTx`.
  pub reward_of : List Transaction → Miner → ℕ
  unfolding sum_fees halve
  reward_of txs m =
      let fee = sum_fees 0 txs in
      let reward = halve m.conf.mx_hlvgs 0 (m.chn_len / m.conf.subsdy_hlv_rt) m.conf.init_subsdy in
      add32 fee reward

  -- `none` is a nil transaction. The loop's test divides by the halving rate.
  pub gen_cb_tx : List (Option Transaction) → Miner → Result (Option Transaction)
  gen_cb_tx [] m = ok none
  gen_cb_tx (x ∷ xs) m = elim (all_some (x ∷ xs)) [
    | none ↦ ok none
    | some txs ↦
        if m.conf.subsdy_hlv_rt == 0
        then panic
        else ok (
            some (
              Tx.deserialize (
                Proto.new_tx m.conf.ver []
                  (Proto.new_tx_outpt (reward_of txs m) (encode_to_string m.id.public_key_bytes)
                    ∷ [])
                  m.conf.def_lck_tm)))
  ]

  -- The loop of `CalcNonce` from nonce `i` on, with `k` rounds left. Whether the context was done
  -- when round `i` asked is an argument.
  nonce_loop : (ℕ → Bool) → Bytes → ℕ → ℕ → Block → Bool × Block
  nonce_loop done dt zero i b = (false, b)
  nonce_loop done dt (suc k) i b =
      let b' = record b { hdr = record b.hdr { nonce = i } } in
      let rest = nonce_loop done dt k (i + 1) b' in
      if done i then (false, b) else if Block.satisfies_pow b' dt then (true, b') else rest

  -- Whether a nonce was found, and the block with the last nonce tried.
  pub calc_nonce : (ℕ → Bool) → Block → Miner → Bool × Block
  calc_nonce done b m = nonce_loop done (dif_trg m) m.conf.nnc_lim 0 b

  -- The end of a round, after the nonce was looked for: a block that was found is printed.
  finish_round : Bool × Block → Miner → Result (Miner × List Sent)
  finish_round (false, b) m = ok (m, [])
  finish_round (true, b) m =
      let (m', sent) = hndl_blk (some b) m in
      do
        own ← fmt_addr m.addr
        tag ← Block.name_tag b
        text ← Block.summarize b
        ok (m', send_blk b ∷ sent)

  -- The goroutine that `Mine` starts at an update while the miner is active.
  pub mine_round : (ℕ → Bool) → Miner → Result (Miner × List Sent)
  mine_round done m =
      let pool = new_mining_pool m in
      let started = record m { mining = true; mining_pool = pool } in
      let mined = do
        cb ← gen_cb_tx (map some pool) started
        b ← Block.new m.prv_hsh (cb ∷ map some pool) (dif_trg m)
        finish_round (calc_nonce done b started) (record started { mining = false })
      in if not (TxPool.pri_met m.tx_p) then ok (m, []) else mined

  -- `Mine` on one update.
  unfoldable pub mine : (ℕ → Bool) → Miner → Result (Miner × List Sent)
  mine done m = if not m.active then ok (m, []) else mine_round done m

  -- The channels are closed; a later send on one would panic.
  unfoldable pub kill : Miner → Miner
  kill m = record m { active = false }
