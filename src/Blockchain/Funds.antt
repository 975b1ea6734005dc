-- ===== src/Blockchain/Funds.antt =====
-- `GetUTXOForAmt`: what a request gets, and what it leaves behind.
pub mod Kept
pub mod Complete
use csci1951l_cryptocurrency.Prelude.{
  ℕ, ◌+◌, ◌≤◌, ◌<◌, List, [], ◌∷◌, Option, none, some, ◌≡◌, refl, sym, ap, ◌∙◌, subst, arith, All,
  ltb, lt→ltb, if◌then◌else◌, Bool-cases, inl, inr, ==_iff,
}
use mathlib.Core.Option.{some-injective, some-ne-none}
use csci1951l_cryptocurrency.Prelude.Word.{u32_mod, sub32}
use csci1951l_cryptocurrency.Prelude.Result.{ok, >>=-eq-ok, ok-injective}
use csci1951l_cryptocurrency.Text.{Bytes}
use csci1951l_cryptocurrency.Blockchain.{
  Blockchain, Utxo, last_utxo, utxo_ref, write_map, UtxoInfo, Collected, collect, get_utxo_for_amt,
}
use csci1951l_cryptocurrency.Blockchain.Balance.{total}
use csci1951l_cryptocurrency.Blockchain.Canonical.{IsCanonical}
use csci1951l_cryptocurrency.Blockchain.Range.Recorded.{IsRecorded, collect-IsFaithful}
use csci1951l_cryptocurrency.Blockchain.Range.{
  sum_amts, IsPayable, AllMarked, collect-IsFair, collect-AllMarked, collect-none,
}

-- The chain after a request that left the map `c.left`.
after : Blockchain → Collected → Blockchain
after bc c = record bc { maps = write_map (utxo_ref bc.last_block) c.left bc.maps }

write_map_self : (r : ℕ) (u : Utxo) (maps : ℕ → Utxo) → write_map r u maps r ≡ u
write_map_self r u maps = ap (λ t. if t then u else maps r) ((==_iff r r).1 refl)

last_utxo-after : (bc : Blockchain) (c : Collected) → last_utxo (after bc c) ≡ c.left
unfolding after
last_utxo-after bc c = write_map_self (utxo_ref bc.last_block) c.left bc.maps

-- The result of a request, by the amount that was collected.
data Asked (amt : ℕ) (c : Collected) (bc : Blockchain) (found : Option (List UtxoInfo × ℕ))
    (bc' : Blockchain) : Type 0 where
  short : c.curr_amt < amt → found ≡ none → bc' ≡ after bc c → Asked amt c bc found bc'
  met :
      amt ≤ c.curr_amt
      → found ≡ some (c.infos, sub32 c.curr_amt amt)
      → bc' ≡ after bc c
      → Asked amt c bc found bc'

asked :
    (amt : ℕ) (pk : Bytes) (bc bc' : Blockchain) (found : Option (List UtxoInfo × ℕ))
    → get_utxo_for_amt amt pk bc ≡ ok (found, bc')
    → (c : Collected) × (collect amt pk 0 (last_utxo bc) ≡ ok c) × Asked amt c bc found bc'
unfolding get_utxo_for_amt after
asked amt pk bc bc' found e =
    let (c, collected, e') = >>=-eq-ok (collect amt pk 0 (last_utxo bc)) _ e in
    (
      c,
      collected,
      elim (Bool-cases (ltb c.curr_amt amt)) [
        | inl less ↦
            let p = ok-injective (rw less at e') in
            short (ground arith) (sym (ap (λ q. q.0) p)) (sym (ap (λ q. q.1) p))
        | inr reached ↦
            let p = ok-injective (rw reached at e') in
            met (ground arith) (sym (ap (λ q. q.0) p)) (sym (ap (λ q. q.1) p))
      ],
    )

short_request :
    (amt : ℕ) (pk : Bytes) (bc : Blockchain) (c : Collected)
    → collect amt pk 0 (last_utxo bc) ≡ ok c
    → c.curr_amt < amt
    → get_utxo_for_amt amt pk bc ≡ ok (none, after bc c)
unfolding get_utxo_for_amt after
short_request amt pk bc c collected less = rw (collected, lt→ltb c.curr_amt amt less)

-- What a request that is met took.
met_request :
    (amt change : ℕ) (pk : Bytes) (bc bc' : Blockchain) (infos : List UtxoInfo)
    → get_utxo_for_amt amt pk bc ≡ ok (some (infos, change), bc')
    → (c : Collected) × (collect amt pk 0 (last_utxo bc) ≡ ok c)
      × (amt ≤ c.curr_amt)
      × (c.infos ≡ infos)
      × (change ≡ sub32 c.curr_amt amt)
      × (last_utxo bc' ≡ c.left)
met_request amt change pk bc bc' infos e =
    let (c, collected, a) = asked amt pk bc bc' (some (infos, change)) e in
    elim a [
      | short less is_none changed ↦ absurd (some-ne-none _ is_none)
      | met enough is_some changed ↦
          let same = some-injective _ _ is_some in
          (
            c,
            collected,
            enough,
            sym (ap (λ r. r.0) same),
            ap (λ r. r.1) same,
            ap last_utxo changed ∙ last_utxo-after bc c,
          )
    ]

-- Where a request is met, and the key's outputs are worth less than 2 ^ 32 together: the outputs
-- found all pay the key, they are worth the amount and the change exactly, and nobody's total in
-- the map is changed.
pub get_utxo_for_amt_lem :
    (amt change : ℕ) (pk : Bytes) (bc bc' : Blockchain) (infos : List UtxoInfo)
    → get_utxo_for_amt amt pk bc ≡ ok (some (infos, change), bc')
    → total pk (last_utxo bc) < u32_mod
    → (sum_amts infos ≡ amt + change)
      × All (IsPayable pk) infos
      × ((q : Bytes) → total q (last_utxo bc') ≡ total q (last_utxo bc))
get_utxo_for_amt_lem amt change pk bc bc' infos e small =
    let (c, collected, enough, q, s, same) = met_request amt change pk bc bc' infos e in
    let f = collect-IsFair amt pk 0 (last_utxo bc) c collected (omega arith) in
    (
      omega (arith, ap sum_amts q, f.sum, f.fits, s),
      subst (All (IsPayable pk)) q f.payable,
      λ k. ap (total k) same ∙ f.same_total k,
    )

-- What it found is worth less than 2 ^ 32.
pub get_utxo_for_amt-fits :
    (amt change : ℕ) (pk : Bytes) (bc bc' : Blockchain) (infos : List UtxoInfo)
    → get_utxo_for_amt amt pk bc ≡ ok (some (infos, change), bc')
    → total pk (last_utxo bc) < u32_mod
    → sum_amts infos < u32_mod
get_utxo_for_amt-fits amt change pk bc bc' infos e small =
    let (c, collected, enough, q, s, same) = met_request amt change pk bc bc' infos e in
    let f = collect-IsFair amt pk 0 (last_utxo bc) c collected (omega arith) in
    omega (arith, ap sum_amts q, f.sum, f.fits)

-- What a request on a map of locators found is in the map that it leaves.
pub get_utxo_for_amt-IsRecorded :
    (amt change : ℕ) (pk : Bytes) (bc bc' : Blockchain) (infos : List UtxoInfo)
    → get_utxo_for_amt amt pk bc ≡ ok (some (infos, change), bc')
    → IsCanonical (last_utxo bc)
    → All (IsRecorded (last_utxo bc')) infos
get_utxo_for_amt-IsRecorded amt change pk bc bc' infos e canonical =
    let (c, collected, enough, q, s, same) = met_request amt change pk bc bc' infos e in
    let f = collect-IsFaithful amt pk 0 (last_utxo bc) c collected canonical in
    subst (λ (u : Utxo). All (IsRecorded u) infos) (sym same)
      (subst (All (IsRecorded c.left)) q f.recorded)

-- A request that is not met leaves every output of the key marked.
failed_request_locks :
    (amt later : ℕ) (pk : Bytes) (bc bc' : Blockchain)
    → get_utxo_for_amt amt pk bc ≡ ok (none, bc')
    → 0 < later
    → (bc'' : Blockchain) × (get_utxo_for_amt later pk bc' ≡ ok (none, bc''))
failed_request_locks amt later pk bc bc' e pos =
    let (c, collected, a) = asked amt pk bc bc' none e in
    elim a [
      | short less is_none changed ↦
          let marked = collect-AllMarked amt pk 0 (last_utxo bc) c collected less in
          let same : last_utxo bc' ≡ c.left = ap last_utxo changed ∙ last_utxo-after bc c in
          let nothing : Collected = record { infos = []; curr_amt = 0; left = last_utxo bc' } in
          (
            after bc' nothing,
            short_request later pk bc' nothing
                (collect-none later pk (last_utxo bc') pos (subst (AllMarked pk) (sym same) marked))
                pos,
          )
      | met enough is_some changed ↦ absurd (some-ne-none _ (sym is_some))
    ]

-- Requests for these amounts, each on the chain that the one before left, are all not met.
abbrev pub AllFail : Bytes → List ℕ → Blockchain → Type 0
AllFail pk [] bc = Unit
AllFail pk (amt ∷ amts) bc =
    (bc' : Blockchain) × (get_utxo_for_amt amt pk bc ≡ ok (none, bc')) × AllFail pk amts bc'

-- A request for outputs of a key is not met. Then no number of requests that come next for the key,
-- for positive amounts however small, is met either: each is made on the chain as the one before it
-- left it, with no other change in between.
pub failed_request_locks_all :
    (amt : ℕ) (later : List ℕ) (pk : Bytes) (bc bc' : Blockchain)
    → get_utxo_for_amt amt pk bc ≡ ok (none, bc')
    → All (λ a. 0 < a) later
    → AllFail pk later bc'
failed_request_locks_all amt [] pk bc bc' e pos = tt
failed_request_locks_all amt (next ∷ later) pk bc bc' e pos =
    let (bc'', failed) = failed_request_locks amt next pk bc bc' e pos.0 in
    (bc'', failed, failed_request_locks_all next later pk bc' bc'' failed pos.1)
