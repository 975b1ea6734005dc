-- ===== src/Miner/Tests.antt =====
-- The theorems on mining at a concrete miner.
use csci1951l_cryptocurrency.Prelude.{ℕ, ◌+◌, ◌<◌, [], ◌∷◌, true, false, ◌≡◌, refl, arith}
use csci1951l_cryptocurrency.Text.{Bytes, codes, is_less}
use csci1951l_cryptocurrency.Text.Decimal.{format}
use csci1951l_cryptocurrency.Text.Hex.{encode_to_string, decode_string, decoded}
use csci1951l_cryptocurrency.Crypto
use csci1951l_cryptocurrency.Crypto.Toy.{toy, alice}
use csci1951l_cryptocurrency.Proto
use csci1951l_cryptocurrency.Tx
use csci1951l_cryptocurrency.Tx.{Transaction}
use csci1951l_cryptocurrency.Tx.Sums.{sum_sizes}
use csci1951l_cryptocurrency.Block
use csci1951l_cryptocurrency.Block.{Block}
use csci1951l_cryptocurrency.Miner.{Miner, nonce_loop, calc_nonce, dif_trg, new_mining_pool}
use csci1951l_cryptocurrency.Miner.Work.{
  with_nonce, IsFront, calc_nonce_found, new_mining_pool_lem, in_order,
}

abbrev pub digger : Bytes → Miner
digger target = record {
  conf = record {
    has_mnr = true;
    ver = 0;
    def_lck_tm = 0;
    tx_p_cap = 50;
    pri_lim = 10;
    blk_sz = 1000;
    nnc_lim = 2;
    init_subsdy = 10;
    subsdy_hlv_rt = 10;
    mx_hlvgs = 10;
    init_powd = target;
  };
  id = alice;
  tx_p = record {
    cur_pri = 1;
    pri_lim = 10;
    tx_q =
        record { p = 1; t = record { version = 0; inputs = []; outputs = []; lock_time = 0 } } ∷ [];
    ct = 1;
    cap = 50;
  };
  mining_pool = [];
  prv_hsh = [];
  addr = [];
  chn_len = 1;
  active = true;
  mining = true;
}

abbrev ore : Block
ore = record {
  hdr = record {
    ver = 0;
    prv_blk_hsh = [];
    mrkl_rt = [];
    timestamp = 0;
    diff_targ = [];
    nonce = 0;
  };
  transactions = [];
}

easy : calc_nonce (λ i. false) ore (digger (codes "ff")) ≡ (true, with_nonce ore 0)
unfolding calc_nonce nonce_loop dif_trg Block.satisfies_pow Block.hash decoded decode_string
    Crypto.hash encode_to_string Block.format_header format is_less
easy = refl

hard : calc_nonce (λ i. false) ore (digger []) ≡ (false, with_nonce ore 1)
unfolding calc_nonce nonce_loop dif_trg Block.satisfies_pow Block.hash decoded decode_string
    Crypto.hash encode_to_string Block.format_header format is_less
hard = refl

calc_nonce_found_example :
    (j : ℕ) × (j < 2)
    × (with_nonce ore 0 ≡ with_nonce ore j)
    × (Block.satisfies_pow (with_nonce ore 0) (dif_trg (digger (codes "ff"))) ≡ true)
    × ((l : ℕ)
        → l < j
        → Block.satisfies_pow (with_nonce ore l) (dif_trg (digger (codes "ff"))) ≡ false)
calc_nonce_found_example =
    calc_nonce_found (λ i. false) ore (with_nonce ore 0) (digger (codes "ff")) easy

small_pool : 100 + sum_sizes (in_order (digger []).tx_p.tx_q) < 4294967296
unfolding Tx.sz Proto.sz_of_tx Tx.serialize
small_pool = omega arith

new_mining_pool_lem_example : IsFront 1000 100 (digger []).tx_p.tx_q (new_mining_pool (digger []))
new_mining_pool_lem_example = new_mining_pool_lem (digger []) small_pool
