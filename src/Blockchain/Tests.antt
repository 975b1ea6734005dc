-- ===== src/Blockchain/Tests.antt =====
-- The blockchain's theorems at concrete chains.
use csci1951l_cryptocurrency.Prelude.{
  ℕ, ◌+◌, ◌<◌, ◌%◌, [], ◌∷◌, Bool, true, false, none, some, ◌≡◌, ◌≢◌, All, length, get_elem?, arith,
  take, drop, if◌then◌else◌, ap,
}
use mathlib.Core.List.Perm.{refl as perm_refl}
use csci1951l_cryptocurrency.Prelude.Int.{pos, negsuc, pos_part}
use csci1951l_cryptocurrency.Prelude.Word.{u32_mod}
use csci1951l_cryptocurrency.Prelude.Result.{ok}
use csci1951l_cryptocurrency.Text.{Bytes}
use csci1951l_cryptocurrency.Text.Equality.{beq, beq_refl}
use csci1951l_cryptocurrency.Dict.{lookup}
use csci1951l_cryptocurrency.Crypto.Toy.{toy}
use csci1951l_cryptocurrency.Tx
use csci1951l_cryptocurrency.Tx.{Transaction}
use csci1951l_cryptocurrency.Tx.Txo.{TransactionOutput, mk_txo_loc, prs_txo_loc}
use csci1951l_cryptocurrency.Tx.Txo.Locator.{prs_txo_loc-mk}
use csci1951l_cryptocurrency.Block
use csci1951l_cryptocurrency.Block.{Block}
use csci1951l_cryptocurrency.Blockchain.Config.{default_config}
use csci1951l_cryptocurrency.Blockchain.{
  BlockchainNode, root, Blockchain, write_map, last_utxo, utxo_of, UtxoInfo, new, add, append_to,
  apply_tx, apply_txs, genesis_block, first_node, slice, get_utxo_for_amt, get_balance, collect,
  take_output, skip_output,
}
use csci1951l_cryptocurrency.Blockchain.Invariant.{IsTree, new-IsTree, add-IsTree}
use csci1951l_cryptocurrency.Blockchain.MainChain.{branch, slice_lem}
use csci1951l_cryptocurrency.Blockchain.Unspent.{spends, apply_tx_lem, add_changes_every_map}
use csci1951l_cryptocurrency.Blockchain.Balance.{total, get_balance_lem}
use csci1951l_cryptocurrency.Blockchain.Range.{sum_amts, IsPayable}
use csci1951l_cryptocurrency.Blockchain.Funds.{
  get_utxo_for_amt_lem, AllFail, failed_request_locks_all,
}

abbrev start : Blockchain
start = new default_config

abbrev genesis : BlockchainNode
genesis = first_node default_config

-- Pays seven to the key `1 2`.
abbrev payment : Transaction
payment = record {
  version = 0;
  inputs = [];
  outputs = record { amount = 7; locking_script = 1 ∷ 2 ∷ []; liminal = false } ∷ [];
  lock_time = 0;
}

abbrev after_genesis : Block
after_genesis = record {
  hdr = record {
    ver = 0;
    prv_blk_hsh = Block.hash (genesis_block default_config);
    mrkl_rt = [];
    timestamp = 0;
    diff_targ = [];
    nonce = 0;
  };
  transactions = payment ∷ [];
}

abbrev grown : Blockchain
grown = append_to after_genesis genesis start

single : (h : Bytes) (n : BlockchainNode) → lookup h ((h, n) ∷ []) ≡ some n
unfolding lookup
single h n = ap (λ (t : Bool). if t then some n else none) (beq_refl h)

genesis-lookup : lookup (Block.hash (genesis_block default_config)) start.blocks ≡ some genesis
unfolding new
genesis-lookup = single (Block.hash (genesis_block default_config)) genesis

grown-add : add (some after_genesis) start ≡ ok grown
unfolding add
grown-add = rw genesis-lookup

add-IsTree_example : IsTree grown
add-IsTree_example =
    add-IsTree (some after_genesis) start grown (new-IsTree default_config) grown-add

slice_lem_example :
    slice (negsuc 0) (pos 1) grown
    ≡ drop (pos_part (negsuc 0)) (take (pos_part (pos 1)) (branch grown.last_block))
slice_lem_example =
    slice_lem (negsuc 0) (pos 1) grown
      (add-IsTree (some after_genesis) start grown (new-IsTree default_config) grown-add)

add_changes_every_map_example :
    utxo_of grown genesis ≡ apply_txs (payment ∷ []) (utxo_of start genesis)
add_changes_every_map_example =
    add_changes_every_map after_genesis start grown (Block.hash (genesis_block default_config))
      genesis (new-IsTree default_config) grown-add genesis-lookup

get_balance_lem_example : get_balance [] start ≡ total [] (last_utxo start) % u32_mod
get_balance_lem_example = get_balance_lem [] start (last_utxo start) (perm_refl (last_utxo start))

-- A chain of one block, with outputs of five and four for the key `1 2`.
abbrev key : Bytes
key = 1 ∷ 2 ∷ []

abbrev owned : ℕ → TransactionOutput
owned n = record { amount = n; locking_script = key; liminal = false }

abbrev marked : ℕ → TransactionOutput
marked n = record { amount = n; locking_script = key; liminal = true }

abbrev locator : ℕ → Bytes
locator i = mk_txo_loc (3 ∷ []) i

abbrev rich : TransactionOutput → TransactionOutput → Blockchain
rich o o' = record {
  addr = [];
  blocks = [];
  last_block = root after_genesis 0 0;
  maps = write_map 0 ((locator 0, o) ∷ (locator 1, o') ∷ []) (λ r. []);
}

-- The chain after a request, which wrote the map at reference 0 once more.
abbrev served : TransactionOutput → TransactionOutput → Blockchain
served o o' = record (rich (owned 4) (owned 5)) {
  maps = write_map 0 ((locator 0, o) ∷ (locator 1, o') ∷ []) (rich (owned 4) (owned 5)).maps;
}

info : ℕ → ℕ → UtxoInfo
info i n = record { tx_hsh = 3 ∷ []; out_idx = i; utxo = marked n; amt = n }

locator-parsed : (i : ℕ) → i < u32_mod → prs_txo_loc (locator i) ≡ ok (3 ∷ [], i)
locator-parsed i small = prs_txo_loc-mk (3 ∷ []) i (ground arith, tt) small

three_of_nine :
    get_utxo_for_amt 3 key (rich (owned 4) (owned 5))
    ≡ ok (some (info 0 4 ∷ [], 1), served (marked 4) (owned 5))
unfolding get_utxo_for_amt collect take_output skip_output info beq
three_of_nine = rw (locator-parsed 0 (omega arith))

ten_of_nine :
    get_utxo_for_amt 10 key (rich (owned 4) (owned 5)) ≡ ok (none, served (marked 4) (marked 5))
unfolding get_utxo_for_amt collect take_output skip_output beq
ten_of_nine = rw (locator-parsed 0 (omega arith), locator-parsed 1 (omega arith))

few : total key (last_utxo (rich (owned 4) (owned 5))) < u32_mod
unfolding beq
few = omega arith

get_utxo_for_amt_lem_example :
    (sum_amts (info 0 4 ∷ []) ≡ 3 + 1)
    × All (IsPayable key) (info 0 4 ∷ [])
    × ((q : Bytes)
        → total q (last_utxo (served (marked 4) (owned 5)))
          ≡ total q (last_utxo (rich (owned 4) (owned 5))))
get_utxo_for_amt_lem_example =
    get_utxo_for_amt_lem 3 1 key (rich (owned 4) (owned 5)) (served (marked 4) (owned 5))
      (info 0 4 ∷ []) three_of_nine few

failed_request_locks_all_example : AllFail key (1 ∷ 2 ∷ []) (served (marked 4) (marked 5))
failed_request_locks_all_example =
    failed_request_locks_all 10 (1 ∷ 2 ∷ []) key (rich (owned 4) (owned 5))
      (served (marked 4) (marked 5)) ten_of_nine (omega arith, (omega arith, tt))

apply_tx_lem_example :
    ((j : ℕ)
      → j < length payment.outputs
      → lookup (mk_txo_loc (Tx.hash payment) j) (apply_tx payment []) ≡ get_elem? payment.outputs j)
    × ((k : Bytes)
        → ((j : ℕ) → mk_txo_loc (Tx.hash payment) j ≢ k)
        → lookup k (apply_tx payment []) ≡ (if spends k payment.inputs then none else lookup k []))
apply_tx_lem_example = apply_tx_lem payment [] (omega arith)
