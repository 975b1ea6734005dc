-- ===== src/Wallet/Resend.antt =====
-- `HndlBlk` of the wallet: what it sends again, and what it waits for afterwards.
use mathlib.Core.List.{Perm, perm_middle}
use mathlib.Core.List.Perm
use csci1951l_cryptocurrency.Prelude.{List, [], ◌∷◌, ◌++◌, map, some, ◌≡◌, refl, ap, sym, subst}
use csci1951l_cryptocurrency.Prelude.Word.{add32}
use csci1951l_cryptocurrency.Crypto.{Crypto}
use csci1951l_cryptocurrency.Tx.{Transaction}
use csci1951l_cryptocurrency.Tx.Heap
use csci1951l_cryptocurrency.Tx.Heap.{Heap, HeapNode, at_least, inc_all, rmv}
use csci1951l_cryptocurrency.Tx.Heap.Order.{IsHeap}
use csci1951l_cryptocurrency.Tx.Heap.Removal.{Removes, rmv_refines}
use csci1951l_cryptocurrency.Tx.Heap.Up.{push_lem}
use csci1951l_cryptocurrency.Block.{Block}
use csci1951l_cryptocurrency.Wallet.LiminalTxs
use csci1951l_cryptocurrency.Wallet.{Wallet, resend, hndl_blk}

-- A transaction that is sent again has another lock time, and waits with priority 0.
abbrev pub again : Transaction → Transaction
again t = record t { lock_time = add32 t.lock_time 1 }

abbrev pub fresh : Transaction → HeapNode
fresh t = record { p = 0; t = t }

-- The queue after the transactions were added one after the other.
record IsResent (ts : List Transaction) (l : LiminalTxs.LiminalTxs)
    (out : List Transaction × LiminalTxs.LiminalTxs) : Type 0 where
  sent : out.0 ≡ map again ts
  waits : Perm out.1.tx_q (map fresh (map again ts) ++ l.tx_q)
  order : IsHeap out.1.tx_q
  thresh : out.1.tx_rply_thresh ≡ l.tx_rply_thresh

module _ ⦃crypto : Crypto⦄ where
  resend-IsResent :
      (ts : List Transaction) (l : LiminalTxs.LiminalTxs)
      → IsHeap l.tx_q
      → IsResent ts l (resend ts l)
  unfolding resend LiminalTxs.add Heap.add
  resend-IsResent [] l order = record {
    sent = refl;
    waits = Perm.rfl;
    order = order;
    thresh = refl;
  }
  resend-IsResent (t ∷ ts) l order =
      let (ordered, same) = push_lem (fresh (again t)) l.tx_q order in
      let f = resend-IsResent ts (LiminalTxs.add (some (again t)) l) ordered in
      record {
        sent = ap (λ out. again t ∷ out) f.sent;
        waits = Perm.trans f.waits (
            Perm.trans (Perm.append_left (map fresh (map again ts)) same)
              (perm_middle (map fresh (map again ts)) l.tx_q));
        order = f.order;
        thresh = f.thresh;
      }

  -- How a wallet handles a safe block: what is in the block is taken out of its queue, the rest is
  -- one block older, what has reached the threshold then is taken out too and sent.
  pub record IsHandled (b : Block) (w w' : Wallet) (sent : List Transaction) : Type 0 where
    pub confirmed : List Transaction
    pub old : List Transaction
    pub left : Heap
    pub kept : Heap
    pub confirms : Removes b.transactions confirmed w.lmnl_txs.tx_q left
    pub drops : Removes (at_least w.lmnl_txs.tx_rply_thresh (inc_all left)) old (inc_all left) kept
    pub resends : sent ≡ map again (at_least w.lmnl_txs.tx_rply_thresh (inc_all left))
    pub waits : Perm w'.lmnl_txs.tx_q (map fresh sent ++ kept)
    pub order : IsHeap w'.lmnl_txs.tx_q
    pub thresh : w'.lmnl_txs.tx_rply_thresh ≡ w.lmnl_txs.tx_rply_thresh
    pub same : w ≡ record w' { lmnl_txs = w.lmnl_txs }

  -- Handling a safe block takes the transactions of the block out of the queue, makes the rest one
  -- block older, and takes out those that are as old as the threshold. They are sent with the next
  -- lock time and wait anew with the rest, in a queue that is a heap; the threshold and the rest of
  -- the wallet stay as they are.
  pub hndl_blk_refines :
      (b : Block) (w : Wallet) → IsHandled b w (hndl_blk (some b) w).0 (hndl_blk (some b) w).1
  unfolding hndl_blk LiminalTxs.chk_txs Heap.rem_abv
  hndl_blk_refines b w =
      let q = rmv (map some b.transactions) w.lmnl_txs.tx_q in
      let old = at_least w.lmnl_txs.tx_rply_thresh (inc_all q.1) in
      let (confirms, ordered) = rmv_refines b.transactions w.lmnl_txs.tx_q in
      let (drops, order) = rmv_refines old (inc_all q.1) in
      let r =
        resend-IsResent old (record w.lmnl_txs { tx_q = (rmv (map some old) (inc_all q.1)).1 })
          order in
      record {
        confirmed = q.0;
        old = (rmv (map some old) (inc_all q.1)).0;
        left = q.1;
        kept = (rmv (map some old) (inc_all q.1)).1;
        confirms = confirms;
        drops = drops;
        resends = r.sent;
        waits =
            subst
              (λ sent.
                Perm (hndl_blk (some b) w).0.lmnl_txs.tx_q
                  (map fresh sent ++ (rmv (map some old) (inc_all q.1)).1))
              (sym r.sent) r.waits;
        order = r.order;
        thresh = r.thresh;
        same = refl;
      }
