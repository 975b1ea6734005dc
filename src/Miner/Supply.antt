-- ===== src/Miner/Supply.antt =====
-- What a mined block adds to all the outputs that can be spent.
pub mod Tests
use csci1951l_cryptocurrency.Prelude.{
  ℕ, ◌+◌, ◌/◌, ◌≤◌, ◌<◌, List, [], ◌∷◌, map, Bool, some, ◌≡◌, refl, ap, ◌∙◌, arith, All,
}
use csci1951l_cryptocurrency.Prelude.Word.{u32_mod, add32, sub32}
use csci1951l_cryptocurrency.Prelude.Result.{ok}
use csci1951l_cryptocurrency.Crypto.{Crypto}
use csci1951l_cryptocurrency.Tx.{Transaction, sum_inputs, sum_outputs}
use csci1951l_cryptocurrency.Tx.Sums.{claimed, paid, sum_inputs_lem, sum_outputs_lem}
use csci1951l_cryptocurrency.Tx.RoundTrip.{unmark}
use csci1951l_cryptocurrency.Tx.Txo.{TransactionOutput}
use csci1951l_cryptocurrency.Block.{Block}
use csci1951l_cryptocurrency.Block.RoundTrip.{unmark_tx}
use csci1951l_cryptocurrency.Blockchain
use csci1951l_cryptocurrency.Blockchain.{Blockchain, last_utxo}
use csci1951l_cryptocurrency.Blockchain.Canonical.{IsCanonical}
use csci1951l_cryptocurrency.Blockchain.Invariant.{IsTree}
use csci1951l_cryptocurrency.Blockchain.Supply.{
  worth, AllBacked, all_claimed, all_paid, worth-apply_txs, last_utxo-add,
}
use csci1951l_cryptocurrency.Miner.{
  Miner, Sent, send_blk, sum_fees, halve, reward_of, new_mining_pool, mine_round,
}
use csci1951l_cryptocurrency.Miner.Mined.{mine_round_lem}

-- A transaction pays no more than it claims.
abbrev pub IsCovered : Transaction → Type 0
IsCovered t = paid t.outputs ≤ claimed t.inputs

-- Where nothing wraps around, the fees are what the transactions claim beyond what they pay.
sum_fees_lem :
    (fee : ℕ) (txs : List Transaction)
    → All IsCovered txs
    → fee + all_claimed txs < u32_mod
    → sum_fees fee txs + all_paid txs ≡ fee + all_claimed txs
unfolding sum_fees
sum_fees_lem fee [] covered small = omega arith
sum_fees_lem fee (t ∷ txs) covered small =
    let ins = sum_inputs_lem t (omega arith) in
    let outs = sum_outputs_lem t (omega (arith, covered.0)) in
    let next : add32 fee (sub32 (sum_inputs t) (sum_outputs t)) + paid t.outputs
        ≡ fee + claimed t.inputs =
      omega (arith, ins, outs, covered.0) in
    omega (
      arith,
      next,
      sum_fees_lem (add32 fee (sub32 (sum_inputs t) (sum_outputs t))) txs covered.1
          (omega (arith, next)),
    )

paid-unmark : (outs : List TransactionOutput) → paid (map unmark outs) ≡ paid outs
paid-unmark [] = refl
paid-unmark (o ∷ outs) = ap (λ (n : ℕ). o.amount + n) (paid-unmark outs)

all_paid-unmark : (txs : List Transaction) → all_paid (map unmark_tx txs) ≡ all_paid txs
all_paid-unmark [] = refl
all_paid-unmark (t ∷ txs) = omega (arith, paid-unmark t.outputs, all_paid-unmark txs)

all_claimed-unmark : (txs : List Transaction) → all_claimed (map unmark_tx txs) ≡ all_claimed txs
all_claimed-unmark [] = refl
all_claimed-unmark (t ∷ txs) = ap (λ (n : ℕ). claimed t.inputs + n) (all_claimed-unmark txs)

module _ ⦃crypto : Crypto⦄ where
  -- The reward for minting, which is halved as the chain grows.
  pub minted : Miner → ℕ
  minted m = halve m.conf.mx_hlvgs 0 (m.chn_len / m.conf.subsdy_hlv_rt) m.conf.init_subsdy

  reward_of-minted :
      (txs : List Transaction) (m : Miner)
      → All IsCovered txs
      → all_claimed txs + minted m < u32_mod
      → reward_of txs m + all_paid txs ≡ all_claimed txs + minted m
  unfolding reward_of minted
  reward_of-minted txs m covered small = omega (arith, sum_fees_lem 0 txs covered (omega arith))

  -- A miner's round sends a block, and the block is added to a tree whose last map has locators as
  -- its keys, each once. Each transaction of the block has exact claims on different outputs that are
  -- there, and a new hash; those of the mining pool pay no more than they claim; and what they claim
  -- is, with the reward for minting, below 2 ^ 32. Then all outputs that can be spent are together
  -- worth exactly the reward for minting more.
  pub mine_round-supply :
      (done : ℕ → Bool) (m m' : Miner) (b : Block) (sent : List Sent) (bc bc' : Blockchain)
      → mine_round done m ≡ ok (m', send_blk b ∷ sent)
      → IsTree bc
      → IsCanonical (last_utxo bc)
      → AllBacked b.transactions (last_utxo bc)
      → All IsCovered (new_mining_pool m)
      → all_claimed (new_mining_pool m) + minted m < u32_mod
      → Blockchain.add (some b) bc ≡ ok bc'
      → worth (last_utxo bc') ≡ worth (last_utxo bc) + minted m
  mine_round-supply done m m' b sent bc bc' e tree canonical backed covered small added =
      let (mined, linked) = mine_round_lem done m m' b sent e in
      let pool = new_mining_pool m in
      omega (
        arith,
        ap worth (last_utxo-add b bc bc' tree added),
        worth-apply_txs b.transactions (last_utxo bc) canonical backed,
        ap all_claimed mined.split,
        ap all_paid mined.split,
        all_claimed-unmark pool,
        all_paid-unmark pool,
        mined.rewarded.unclaimed,
        mined.rewarded.exact,
        reward_of-minted pool m covered small,
      )
