-- ===== src/Blockchain.antt =====
-- BrunoCoin/pkg/blockchain/blockchain.go. The lock is held during every method that changes the
-- chain, so a method is one step. A Go map is an object that several nodes may share: a node holds
-- a reference, and the chain holds the maps by reference. The nodes themselves never change.
pub mod Config
pub mod Invariant
pub mod MainChain
pub mod Linked
pub mod Inputs
pub mod Recorded
pub mod Supply
pub mod Unmarked
pub mod Unspent
pub mod Balance
pub mod Canonical
pub mod Range
pub mod Funds
pub mod Tests
use csci1951l_cryptocurrency.Prelude.{
  ℕ, zero, suc, ◌+◌, ◌-◌, List, [], ◌∷◌, ◌++◌, map, Bool, true, false, not, ◌&&◌, Option, none,
  some, length, ltb, leb, ◌==◌, if◌then◌else◌,
}
use csci1951l_cryptocurrency.Prelude.Int.{ℤ, pos, negsuc, leb_ℤ, ltb_ℤ}
use csci1951l_cryptocurrency.Prelude.Word.{u32, add32, sub32}
use csci1951l_cryptocurrency.Prelude.Result.{Result, ok, panic, ◌>>=◌, deref}
use csci1951l_cryptocurrency.Text.{Bytes, codes, join}
use csci1951l_cryptocurrency.Text.Equality.{beq}
use csci1951l_cryptocurrency.Dict.{Dict, lookup, contains, insert, erase}
use csci1951l_cryptocurrency.Crypto.{Crypto}
use csci1951l_cryptocurrency.Proto
use csci1951l_cryptocurrency.Tx
use csci1951l_cryptocurrency.Tx.{Transaction}
use csci1951l_cryptocurrency.Tx.Txi.{TransactionInput}
use csci1951l_cryptocurrency.Tx.Txo.{TransactionOutput, mk_txo_loc, prs_txo_loc}
use csci1951l_cryptocurrency.Block
use csci1951l_cryptocurrency.Block.{Block}

-- A node: its block, the node before it if there is one, the reference of its map, its depth.
pub data BlockchainNode : Type 0 where
  root : Block → ℕ → ℕ → BlockchainNode
  child : Block → BlockchainNode → ℕ → ℕ → BlockchainNode

abbrev pub block : BlockchainNode → Block
block (root b r d) = b
block (child b p r d) = b

abbrev pub prev_node : BlockchainNode → Option BlockchainNode
prev_node (root b r d) = none
prev_node (child b p r d) = some p

-- The reference of the node's map of unspent outputs.
abbrev pub utxo_ref : BlockchainNode → ℕ
utxo_ref (root b r d) = r
utxo_ref (child b p r d) = r

abbrev pub depth : BlockchainNode → ℕ
depth (root b r d) = d
depth (child b p r d) = d

abbrev pub Utxo : Type 0
Utxo = Dict TransactionOutput

pub record Blockchain : Type 0 where
  pub addr : Bytes
  pub blocks : Dict BlockchainNode
  pub last_block : BlockchainNode
  -- the maps in memory, by reference
  pub maps : ℕ → Utxo

-- The map that a node refers to.
abbrev pub utxo_of : Blockchain → BlockchainNode → Utxo
utxo_of bc n = bc.maps (utxo_ref n)

abbrev pub last_utxo : Blockchain → Utxo
last_utxo bc = utxo_of bc bc.last_block

-- The writes of a method to the map at a reference.
abbrev pub write_map : ℕ → Utxo → (ℕ → Utxo) → ℕ → Utxo
write_map r u maps s = if r == s then u else maps s

unfoldable pub set_addr : Bytes → Blockchain → Blockchain
set_addr a bc = record bc { addr = a }

-- The inner loops of `Add`: the outputs that a transaction spends leave the map, then its own
-- outputs enter it.
unfoldable pub spend_inputs : List TransactionInput → Utxo → Utxo
spend_inputs [] utxo = utxo
spend_inputs (txin ∷ ins) utxo =
    spend_inputs ins (erase (mk_txo_loc txin.transaction_hash txin.output_index) utxo)

unfoldable pub add_outputs : Bytes → ℕ → List TransactionOutput → Utxo → Utxo
add_outputs h i [] utxo = utxo
add_outputs h i (txout ∷ outs) utxo =
    add_outputs h (i + 1) outs (insert (mk_txo_loc h (u32 i)) txout utxo)

unfoldable pub length_of : Blockchain → ℕ
length_of bc = depth bc.last_block + 1

unfoldable pub get : Bytes → Blockchain → Result Block
get hash bc = do n ← deref (lookup hash bc.blocks); ok (block n)

unfoldable pub index_of : Bytes → Blockchain → ℤ
index_of hash bc = elim (lookup hash bc.blocks) [ none ↦ negsuc 0 | some n ↦ pos (depth n) ]

unfoldable pub get_last_block : Blockchain → Block
get_last_block bc = block bc.last_block

-- `ct` more blocks, from the node that is pointed to.
list_loop : ℕ → Option BlockchainNode → List Block → Result (List Block)
list_loop zero b slice = ok slice
list_loop (suc ct) none slice = panic
list_loop (suc ct) (some b) slice = list_loop ct (prev_node b) (block b ∷ slice)

pub list : Blockchain → Result (List Block)
list bc = list_loop (depth bc.last_block + 1) (some bc.last_block) []

-- The blocks of a chain whose depth is at least `s` and below `e`, walked from its end until the
-- depth falls below `s`.
slice_loop : ℤ → ℤ → BlockchainNode → List Block → List Block
slice_loop s e (root b r d) slice =
    if leb_ℤ s (pos d) then (if ltb_ℤ (pos d) e then b ∷ slice else slice) else slice
slice_loop s e (child b p r d) slice =
    let rest = slice_loop s e p (if ltb_ℤ (pos d) e then b ∷ slice else slice) in
    if leb_ℤ s (pos d) then rest else slice

pub slice : ℤ → ℤ → Blockchain → List Block
slice s e bc = slice_loop s e bc.last_block []

unfoldable pub get_utxo : TransactionInput → Blockchain → Option TransactionOutput
get_utxo txi bc = lookup (mk_txo_loc txi.transaction_hash txi.output_index) (last_utxo bc)

-- `GetUTXOLen`
pub count_utxo : Bytes → ℕ → Utxo → ℕ
count_utxo pk ct [] = ct
count_utxo pk ct ((k, v) ∷ u) = count_utxo pk (if beq v.locking_script pk then ct + 1 else ct) u

unfoldable pub get_utxo_len : Bytes → Blockchain → ℕ
unfolding count_utxo
get_utxo_len pk bc = count_utxo pk 0 (last_utxo bc)

unfoldable pub is_invalid_input : TransactionInput → Blockchain → Bool
is_invalid_input txi bc =
    not (contains (mk_txo_loc txi.transaction_hash txi.output_index) (last_utxo bc))

-- The loops of `ChkChainsUTXO` over one map.
has_inputs : List TransactionInput → Utxo → Bool
has_inputs [] utxo = true
has_inputs (txii ∷ ins) utxo =
    contains (mk_txo_loc txii.transaction_hash txii.output_index) utxo && has_inputs ins utxo

have_inputs : List Transaction → Utxo → Bool
have_inputs [] utxo = true
have_inputs (t ∷ txs) utxo = has_inputs t.inputs utxo && have_inputs txs utxo

-- A block that is not known is compared with the last one.
unfoldable pub chk_chains_utxo : List Transaction → Bytes → Blockchain → Bool
unfolding has_inputs have_inputs
chk_chains_utxo txs prev_hash bc =
    have_inputs txs
      (elim (lookup prev_hash bc.blocks) [ none ↦ last_utxo bc | some n ↦ utxo_of bc n ])

pub record UtxoInfo : Type 0 where
  pub tx_hsh : Bytes
  pub out_idx : ℕ
  pub utxo : TransactionOutput
  pub amt : ℕ

-- What the range of `GetUTXOForAmt` has at its end: the outputs taken, their sum, and the map.
pub record Collected : Type 0 where
  pub infos : List UtxoInfo
  pub curr_amt : ℕ
  pub left : Utxo

-- The output is taken, and marked in the map that holds it.
unfoldable pub take_output : Bytes → TransactionOutput → Bytes × ℕ → Collected → Collected
take_output k v (tx_hash, idx) c = record c {
  infos =
      record { tx_hsh = tx_hash; out_idx = idx; utxo = record v { liminal = true }; amt = v.amount }
      ∷ c.infos;
  left = (k, record v { liminal = true }) ∷ c.left;
}

unfoldable pub skip_output : Bytes → TransactionOutput → Collected → Collected
skip_output k v c = record c { left = (k, v) ∷ c.left }

-- The range stops when the amount is reached.
unfoldable pub collect : ℕ → Bytes → ℕ → Utxo → Result Collected
collect amt pub_key curr_amt [] = ok (record { infos = []; curr_amt = curr_amt; left = [] })
collect amt pub_key curr_amt ((k, v) ∷ utxo) =
    let skipped = collect amt pub_key curr_amt utxo >>= λ c. ok (skip_output k v c) in
    let taken = prs_txo_loc k >>= λ loc.
    collect amt pub_key (add32 curr_amt v.amount) utxo >>= λ c. ok (take_output k v loc c) in
    if leb amt curr_amt
    then ok (record { infos = []; curr_amt = curr_amt; left = (k, v) ∷ utxo })
    else if beq v.locking_script pub_key && not v.liminal
    then taken
    else skipped

-- The outputs and the change; `none` where there is not enough. The marks stay in either case.
unfoldable pub get_utxo_for_amt :
    ℕ → Bytes → Blockchain → Result (Option (List UtxoInfo × ℕ) × Blockchain)
get_utxo_for_amt amt pub_key bc = do
  c ← collect amt pub_key 0 (last_utxo bc)
  let bc' = record bc { maps = write_map (utxo_ref bc.last_block) c.left bc.maps }
  ok (if ltb c.curr_amt amt then (none, bc') else (some (c.infos, sub32 c.curr_amt amt), bc'))

-- The loop of `GetBalance`.
balance_from : Bytes → ℕ → Utxo → ℕ
balance_from pk bal [] = bal
balance_from pk bal ((k, v) ∷ u) =
    balance_from pk (if beq v.locking_script pk then add32 bal v.amount else bal) u

pub get_balance : Bytes → Blockchain → ℕ
get_balance pk bc = balance_from pk 0 (last_utxo bc)

-- `GenesisBlock`: one transaction, which pays the initial subsidy.
pub genesis_tx : Config.Config → Proto.Transaction
genesis_tx conf = Proto.new_tx 0 [] (Proto.new_tx_outpt conf.init_sbsdy conf.gen_pk ∷ []) 0

unfoldable pub genesis_block : Config.Config → Block
unfolding genesis_tx
genesis_block conf = record {
  hdr = record {
    ver = 0;
    prv_blk_hsh = [];
    mrkl_rt = [];
    timestamp = 0;
    diff_targ = [];
    nonce = 0;
  };
  transactions = Tx.deserialize (genesis_tx conf) ∷ [];
}

module _ ⦃crypto : Crypto⦄ where
  unfoldable pub apply_tx : Transaction → Utxo → Utxo
  apply_tx t utxo = add_outputs (Tx.hash t) 0 t.outputs (spend_inputs t.inputs utxo)

  -- The outer loop of `Add`.
  unfoldable pub apply_txs : List Transaction → Utxo → Utxo
  apply_txs [] utxo = utxo
  apply_txs (t ∷ txs) utxo = apply_txs txs (apply_tx t utxo)

  -- The new node refers to the map of the node before it, which is changed in place.
  unfoldable pub append_to : Block → BlockchainNode → Blockchain → Blockchain
  append_to b prev bc =
      let new_block = child b prev (utxo_ref prev) (depth prev + 1) in
      record bc {
        maps = write_map (utxo_ref prev) (apply_txs b.transactions (utxo_of bc prev)) bc.maps;
        blocks = insert (Block.hash b) new_block bc.blocks;
        last_block =
            if ltb (depth bc.last_block) (depth new_block) then new_block else bc.last_block;
      }

  -- A nil block is ignored; without the node before the block, its fields are read through nil.
  unfoldable pub add : Option Block → Blockchain → Result Blockchain
  add none bc = ok bc
  add (some b) bc = do prev ← deref (lookup b.hdr.prv_blk_hsh bc.blocks); ok (append_to b prev bc)

  unfoldable pub is_end_main_chain : Block → Blockchain → Bool
  is_end_main_chain blk bc = beq (Block.hash (block bc.last_block)) blk.hdr.prv_blk_hsh

  -- The genesis node owns the map at reference 0; the other references are not in use.
  first_node : Config.Config → BlockchainNode
  first_node conf = root (genesis_block conf) 0 0

  first_utxo : Config.Config → Utxo
  first_utxo conf =
      add_outputs (Tx.hash (Tx.deserialize (genesis_tx conf))) 0
        (Tx.deserialize (genesis_tx conf)).outputs []

  unfoldable pub new : Config.Config → Blockchain
  unfolding first_node first_utxo
  new conf = record {
    addr = [];
    blocks = (Block.hash (genesis_block conf), first_node conf) ∷ [];
    last_block = first_node conf;
    maps = write_map 0 (first_utxo conf) (λ r. []);
  }

  -- The loop of `String`, with `ct` rounds left.
  string_loop : ℕ → Option BlockchainNode → List Bytes → Result (List Bytes)
  string_loop zero b slice = ok slice
  string_loop (suc ct) none slice = panic
  string_loop (suc ct) (some b) slice = do
    tag ← Block.name_tag (block b)
    string_loop ct (prev_node b) (tag ∷ slice)

  -- `String`
  pub to_string : Blockchain → Result Bytes
  unfolding string_loop
  to_string bc = do
    slice ← string_loop (depth bc.last_block + 1) (some bc.last_block) []
    ok (b'[' ∷ (join (codes ", ") slice ++ b']' ∷ []))
