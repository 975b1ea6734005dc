-- ===== src/Blockchain/Range/Recorded.antt =====
-- The outputs that the range takes are in the map that it leaves, under the locators it reports.
use csci1951l_cryptocurrency.Prelude.{
  ℕ, List, [], ◌∷◌, true, none, some, ◌≡◌, sym, ap, subst, ◌∙◌, arith, All,
}
use csci1951l_cryptocurrency.Prelude.Result.{ok, ok-injective}
use csci1951l_cryptocurrency.Prelude.Word.{add32}
use csci1951l_cryptocurrency.Text.{Bytes}
use csci1951l_cryptocurrency.Text.Equality.{beq_iff, beq_refl}
use csci1951l_cryptocurrency.Dict.{lookup}
use csci1951l_cryptocurrency.Tx.Txo.{TransactionOutput, mk_txo_loc, prs_txo_loc}
use csci1951l_cryptocurrency.Tx.Txo.Locator.{prs_txo_loc-mk}
use csci1951l_cryptocurrency.Blockchain.{
  Utxo, UtxoInfo, Collected, take_output, skip_output, collect,
}
use csci1951l_cryptocurrency.Blockchain.Canonical.{IsLocator, IsCanonical}
use csci1951l_cryptocurrency.Blockchain.Range.{stop, take_it, skip_it, round, collect-nil}

-- The map has the output that is reported, where it is reported.
abbrev pub IsRecorded : Utxo → UtxoInfo → Type 0
IsRecorded u i = lookup (mk_txo_loc i.tx_hsh i.out_idx) u ≡ some i.utxo

-- What the range of a map is like, by its keys.
pub record IsFaithful (u : Utxo) (c : Collected) : Type 0 where
  pub recorded : All (IsRecorded c.left) c.infos
  pub absent : (k : Bytes) → lookup k u ≡ none → lookup k c.left ≡ none
  pub canonical : IsCanonical c.left

-- Another entry in front, under a key that the map does not have, hides nothing.
IsRecorded-cons :
    (k : Bytes) (v : TransactionOutput) (u : Utxo) (infos : List UtxoInfo)
    → lookup k u ≡ none
    → All (IsRecorded u) infos
    → All (IsRecorded ((k, v) ∷ u)) infos
unfolding lookup
IsRecorded-cons k v u [] fresh all = tt
IsRecorded-cons k v u (i ∷ is) fresh all = (
  ground (arith, all.0, fresh, beq_iff k (mk_txo_loc i.tx_hsh i.out_idx)),
  IsRecorded-cons k v u is fresh all.1,
)

-- The locator that a key is parsed to is the key.
parsed_key :
    (k : Bytes) (loc : Bytes × ℕ)
    → IsLocator k
    → prs_txo_loc k ≡ ok loc
    → mk_txo_loc loc.0 loc.1 ≡ k
parsed_key k loc is parsed =
    let same : (is.tx_hash, is.index) ≡ loc = ok-injective (
      sym (prs_txo_loc-mk is.tx_hash is.index is.dashless is.fits)
      ∙ ap prs_txo_loc (sym is.named)
      ∙ parsed) in
    ap (λ (l : Bytes × ℕ). mk_txo_loc l.0 l.1) (sym same) ∙ sym is.named

stop-IsFaithful :
    (curr : ℕ) (u : Utxo)
    → IsCanonical u
    → IsFaithful u (record { infos = []; curr_amt = curr; left = u })
stop-IsFaithful curr u canonical = record {
  recorded = tt;
  absent = λ j fresh. fresh;
  canonical = canonical;
}

take-IsFaithful :
    (k : Bytes) (v : TransactionOutput) (u : Utxo) (loc : Bytes × ℕ) (r : Collected)
    → prs_txo_loc k ≡ ok loc
    → IsCanonical ((k, v) ∷ u)
    → IsFaithful u r
    → IsFaithful ((k, v) ∷ u) (take_output k v loc r)
unfolding take_output lookup
take-IsFaithful k v u loc r parsed canonical f =
    let fresh = f.absent k canonical.0 in
    record {
      recorded = (
        ground (arith, parsed_key k loc canonical.1 parsed, beq_refl k),
        IsRecorded-cons k (record v { liminal = true }) r.left r.infos fresh f.recorded,
      );
      absent = λ j none_of. ground (arith, f.absent j, none_of);
      canonical = (fresh, canonical.1, f.canonical);
    }

skip-IsFaithful :
    (k : Bytes) (v : TransactionOutput) (u : Utxo) (r : Collected)
    → IsCanonical ((k, v) ∷ u)
    → IsFaithful u r
    → IsFaithful ((k, v) ∷ u) (skip_output k v r)
unfolding skip_output lookup
skip-IsFaithful k v u r canonical f =
    let fresh = f.absent k canonical.0 in
    record {
      recorded = IsRecorded-cons k v r.left r.infos fresh f.recorded;
      absent = λ j none_of. ground (arith, f.absent j, none_of);
      canonical = (fresh, canonical.1, f.canonical);
    }

pub collect-IsFaithful :
    (amt : ℕ) (pk : Bytes) (curr : ℕ) (u : Utxo) (c : Collected)
    → collect amt pk curr u ≡ ok c
    → IsCanonical u
    → IsFaithful u c
collect-IsFaithful amt pk curr [] c e canonical =
    subst (IsFaithful []) (collect-nil amt pk curr c e) (stop-IsFaithful curr [] canonical)
collect-IsFaithful amt pk curr ((k, v) ∷ u) c e canonical = elim (round amt pk curr k v u c e) [
  | stop reached is_c ↦
      subst (IsFaithful ((k, v) ∷ u)) (sym is_c) (stop-IsFaithful curr ((k, v) ∷ u) canonical)
  | take_it more mine fresh loc r parsed rest is_c ↦ subst (IsFaithful ((k, v) ∷ u)) (sym is_c) (
      take-IsFaithful k v u loc r parsed canonical
        (collect-IsFaithful amt pk (add32 curr v.amount) u r rest canonical.2))
  | skip_it more other r rest is_c ↦
      subst (IsFaithful ((k, v) ∷ u)) (sym is_c)
        (skip-IsFaithful k v u r canonical (collect-IsFaithful amt pk curr u r rest canonical.2))
]
