-- ===== src/Block/Made.antt =====
-- What `New` makes of the transactions that it is given: it writes them as a message and reads them
-- back, so their outputs are unmarked.
use csci1951l_cryptocurrency.Prelude.{
  ◌+◌, ◌<◌, List, [], ◌∷◌, map, Option, none, some, ◌≡◌, refl, sym, subst, ap, ap₂, ◌∙◌,
}
use csci1951l_cryptocurrency.Prelude.Word.{u32_mod}
use csci1951l_cryptocurrency.Prelude.Result.{ok, panic}
use csci1951l_cryptocurrency.Text.{Bytes}
use csci1951l_cryptocurrency.Crypto.{Crypto}
use csci1951l_cryptocurrency.Proto
use csci1951l_cryptocurrency.Proto.Sizes.{sz_of_blk_lem}
use csci1951l_cryptocurrency.Tx
use csci1951l_cryptocurrency.Tx.{Transaction}
use csci1951l_cryptocurrency.Tx.Sums.{sum_sizes}
use csci1951l_cryptocurrency.Tx.RoundTrip.{deserialize-serialize, serialize-deserialize}
use csci1951l_cryptocurrency.Block
use csci1951l_cryptocurrency.Block.{Block, deref_all, new}
use csci1951l_cryptocurrency.Block.Merkle.{calc_mrkl_rt_ends}
use csci1951l_cryptocurrency.Block.RoundTrip.{unmark_tx, txs_back}

pub serialize-unmark_tx : (t : Transaction) → Tx.serialize (unmark_tx t) ≡ Tx.serialize t
serialize-unmark_tx t =
    ap Tx.serialize (sym (deserialize-serialize t)) ∙ serialize-deserialize (Tx.serialize t)

pub unmark_tx-deserialize :
    (p : Proto.Transaction) → unmark_tx (Tx.deserialize p) ≡ Tx.deserialize p
unmark_tx-deserialize p =
    sym (deserialize-serialize (Tx.deserialize p)) ∙ ap Tx.deserialize (serialize-deserialize p)

pub unmark_tx_twice : (t : Transaction) → unmark_tx (unmark_tx t) ≡ unmark_tx t
unmark_tx_twice t =
    subst (λ u. unmark_tx u ≡ u) (deserialize-serialize t) (unmark_tx-deserialize (Tx.serialize t))

pub unmark_txs_twice :
    (txs : List Transaction) → map unmark_tx (map unmark_tx txs) ≡ map unmark_tx txs
unmark_txs_twice [] = refl
unmark_txs_twice (t ∷ txs) = ap₂ ◌∷◌ (unmark_tx_twice t) (unmark_txs_twice txs)

pub serialize-unmark_txs :
    (txs : List Transaction) → map Tx.serialize (map unmark_tx txs) ≡ map Tx.serialize txs
serialize-unmark_txs [] = refl
serialize-unmark_txs (t ∷ txs) = ap₂ ◌∷◌ (serialize-unmark_tx t) (serialize-unmark_txs txs)

-- The size of a block: 44 bytes for the header, and its transactions.
pub sz_lem :
    (b : Block) (txs : List Transaction)
    → b.transactions ≡ map unmark_tx txs
    → 44 + sum_sizes txs < u32_mod
    → Block.sz b ≡ ok (44 + sum_sizes txs)
unfolding Block.sz Block.serialize
sz_lem b txs made small = rw (made, serialize-unmark_txs txs) (sz_of_blk_lem _ txs small)

module _ ⦃crypto : Crypto⦄ where
  deref_all-some : (txs : List Transaction) → deref_all (map some txs) ≡ ok txs
  unfolding deref_all
  deref_all-some [] = refl
  deref_all-some (t ∷ txs) = rw (deref_all-some txs)

  -- A nil transaction at the front is dereferenced.
  pub new_nil :
      (prv_hsh : Bytes) (txs : List (Option Transaction)) (target : Bytes)
      → new prv_hsh (none ∷ txs) target ≡ panic
  unfolding new deref_all
  new_nil prv_hsh txs target = refl

  -- The block has the hash and the target that were given, and the transactions unmarked.
  pub new_lem :
      (prv_hsh : Bytes) (t : Transaction) (txs : List Transaction) (target : Bytes)
      → (b : Block) × (new prv_hsh (some t ∷ map some txs) target ≡ ok b)
        × (b.hdr.prv_blk_hsh ≡ prv_hsh)
        × (b.hdr.diff_targ ≡ target)
        × (b.transactions ≡ unmark_tx t ∷ map unmark_tx txs)
  unfolding new Block.deserialize
  new_lem prv_hsh t txs target =
      let (rt, ends) = calc_mrkl_rt_ends t txs in
      (
        record {
          hdr = record {
            ver = 0;
            prv_blk_hsh = prv_hsh;
            mrkl_rt = rt;
            timestamp = 0;
            diff_targ = target;
            nonce = 0;
          };
          transactions = map Tx.deserialize (map Tx.serialize (t ∷ txs));
        },
        rw (deref_all-some (t ∷ txs), ends),
        refl,
        refl,
        txs_back (t ∷ txs),
      )
