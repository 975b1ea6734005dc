-- ===== src/Blockchain/Funds/Complete.antt =====
-- When a request of `GetUTXOForAmt` is met.
use csci1951l_cryptocurrency.Prelude.{
  ℕ, ◌+◌, ◌≤◌, ◌<◌, List, none, some, ◌≡◌, ap, arith, length, ltb, Bool-cases, ◌⊎◌, inl, inr, false,
}
use csci1951l_cryptocurrency.Prelude.Word.{u32_mod, sub32}
use csci1951l_cryptocurrency.Prelude.Result.{ok}
use csci1951l_cryptocurrency.Text.{Bytes}
use csci1951l_cryptocurrency.Blockchain.{
  Blockchain, UtxoInfo, Collected, collect, last_utxo, get_utxo_for_amt, get_utxo_len,
}
use csci1951l_cryptocurrency.Blockchain.Canonical.{IsCanonical}
use csci1951l_cryptocurrency.Blockchain.Range.Complete.{spendable, IsComplete, collect_returns}
use csci1951l_cryptocurrency.Blockchain.Funds.{after, last_utxo-after, short_request}

-- The request is met: what is found and the change leave the rest to be spent.
pub record IsMet (amt : ℕ) (pk : Bytes) (bc : Blockchain) : Type 0 where
  pub infos : List UtxoInfo
  pub change : ℕ
  pub changed : Blockchain
  pub found : get_utxo_for_amt amt pk bc ≡ ok (some (infos, change), changed)
  pub rest : spendable pk (last_utxo changed) + (amt + change) ≡ spendable pk (last_utxo bc)
  pub few : length infos ≤ get_utxo_len pk bc

-- The request is not met, and leaves nothing to be spent.
pub record IsShort (amt : ℕ) (pk : Bytes) (bc : Blockchain) : Type 0 where
  pub changed : Blockchain
  pub refused : get_utxo_for_amt amt pk bc ≡ ok (none, changed)
  pub nothing : spendable pk (last_utxo changed) ≡ 0

long_request :
    (amt : ℕ) (pk : Bytes) (bc : Blockchain) (c : Collected)
    → collect amt pk 0 (last_utxo bc) ≡ ok c
    → ltb c.curr_amt amt ≡ false
    → get_utxo_for_amt amt pk bc ≡ ok (some (c.infos, sub32 c.curr_amt amt), after bc c)
unfolding get_utxo_for_amt after
long_request amt pk bc c collected enough = rw (collected, enough)

few_found :
    (amt : ℕ) (pk : Bytes) (bc : Blockchain) (c : Collected)
    → IsComplete amt pk 0 (last_utxo bc) c
    → length c.infos ≤ get_utxo_len pk bc
unfolding get_utxo_len
few_found amt pk bc c f = f.few

-- On a map of locators, in which the key's outputs that are not marked are worth less than 2 ^ 32, a
-- request returns. It is met exactly if they are worth the amount, and then takes what it found off
-- them; otherwise it leaves none of them unmarked that is worth something.
pub get_utxo_for_amt_cases :
    (amt : ℕ) (pk : Bytes) (bc : Blockchain)
    → IsCanonical (last_utxo bc)
    → spendable pk (last_utxo bc) < u32_mod
    → ((amt ≤ spendable pk (last_utxo bc)) × IsMet amt pk bc)
      ⊎ ((spendable pk (last_utxo bc) < amt) × IsShort amt pk bc)
get_utxo_for_amt_cases amt pk bc canonical small =
    let (c, collected, f) = collect_returns amt pk 0 (last_utxo bc) canonical (omega arith) in
    let same = ap (spendable pk) (last_utxo-after bc c) in
    elim (Bool-cases (ltb c.curr_amt amt)) [
      | inr enough ↦
          let reached : amt ≤ c.curr_amt = ground arith in
          inl (
            omega (arith, reached, f.left_over),
            record {
              infos = c.infos;
              change = sub32 c.curr_amt amt;
              changed = after bc c;
              found = long_request amt pk bc c collected enough;
              rest = omega (arith, reached, f.left_over, same);
              few = few_found amt pk bc c f;
            },
          )
      | inl less ↦
          let below : c.curr_amt < amt = ground arith in
          elim f.all_or_enough [
            | inl enough ↦ absurd (omega (arith, below, enough))
            | inr all ↦ inr (
              omega (arith, below, all),
              record {
                changed = after bc c;
                refused = short_request amt pk bc c collected below;
                nothing = omega (arith, f.left_over, all, same);
              },
            )
          ]
    ]
