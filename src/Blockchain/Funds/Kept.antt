-- ===== src/Blockchain/Funds/Kept.antt =====
-- What a request for outputs leaves as it was.
use csci1951l_cryptocurrency.Prelude.{ℕ, List, Option, ◌≡◌, sym, subst}
use csci1951l_cryptocurrency.Prelude.Result.{ok}
use csci1951l_cryptocurrency.Text.{Bytes}
use csci1951l_cryptocurrency.Crypto.{Crypto}
use csci1951l_cryptocurrency.Blockchain.{
  Blockchain, UtxoInfo, Collected, collect, last_utxo, utxo_ref, get_utxo_for_amt,
}
use csci1951l_cryptocurrency.Blockchain.Canonical.{AllCanonical, write_map-IsCanonical}
use csci1951l_cryptocurrency.Blockchain.Invariant.{IsTree}
use csci1951l_cryptocurrency.Blockchain.Range.Recorded.{collect-IsFaithful}
use csci1951l_cryptocurrency.Blockchain.Funds.{after, short, met, asked}

-- Met or not, it only marks outputs in one map.
request_after :
    (amt : ℕ) (pk : Bytes) (bc bc' : Blockchain) (found : Option (List UtxoInfo × ℕ))
    → get_utxo_for_amt amt pk bc ≡ ok (found, bc')
    → (c : Collected) × (collect amt pk 0 (last_utxo bc) ≡ ok c) × (bc' ≡ after bc c)
request_after amt pk bc bc' found e =
    let (c, collected, a) = asked amt pk bc bc' found e in
    (c, collected, elim a [ short less is_none same ↦ same | met enough is_some same ↦ same ])

module _ ⦃crypto : Crypto⦄ where
  after-IsTree : (bc : Blockchain) (c : Collected) → IsTree bc → IsTree (after bc c)
  unfolding after
  after-IsTree bc c v = record {
    entry = v.entry;
    last_chain = v.last_chain;
    last_known = v.last_known;
  }

  after-AllCanonical :
      (amt : ℕ) (pk : Bytes) (bc : Blockchain) (c : Collected)
      → collect amt pk 0 (last_utxo bc) ≡ ok c
      → AllCanonical bc
      → AllCanonical (after bc c)
  unfolding after
  after-AllCanonical amt pk bc c collected all =
      let f =
        collect-IsFaithful amt pk 0 (last_utxo bc) c collected (all (utxo_ref bc.last_block)) in
      write_map-IsCanonical (utxo_ref bc.last_block) c.left bc.maps f.canonical all

  -- A request, met or not, keeps the tree, and the locators of its maps.
  pub get_utxo_for_amt-kept :
      (amt : ℕ) (pk : Bytes) (bc bc' : Blockchain) (found : Option (List UtxoInfo × ℕ))
      → get_utxo_for_amt amt pk bc ≡ ok (found, bc')
      → IsTree bc
      → AllCanonical bc
      → IsTree bc' × AllCanonical bc'
  get_utxo_for_amt-kept amt pk bc bc' found e tree all =
      let (c, collected, same) = request_after amt pk bc bc' found e in
      (
        subst IsTree (sym same) (after-IsTree bc c tree),
        subst AllCanonical (sym same) (after-AllCanonical amt pk bc c collected all),
      )
