-- ===== src/Miner/Config.antt =====
-- BrunoCoin/pkg/miner/config.go
use csci1951l_cryptocurrency.Prelude.{ℕ, ◌^◌, Bool, true, false}
use csci1951l_cryptocurrency.Prelude.Int.{ℤ}
use csci1951l_cryptocurrency.Prelude.Word.{u32}
use csci1951l_cryptocurrency.Text.{Bytes}
use csci1951l_cryptocurrency.Utils.{calc_powd}

pub record Config : Type 0 where
  pub has_mnr : Bool
  pub ver : ℕ
  pub def_lck_tm : ℕ
  pub tx_p_cap : ℕ
  pub pri_lim : ℕ
  pub blk_sz : ℕ
  pub nnc_lim : ℕ
  pub init_subsdy : ℕ
  pub subsdy_hlv_rt : ℕ
  pub mx_hlvgs : ℕ
  pub init_powd : Bytes

unfoldable pub default_config : ℤ → Config
default_config powd_num_zeros = record {
  has_mnr = true;
  ver = 0;
  def_lck_tm = 0;
  tx_p_cap = 50;
  pri_lim = 10;
  blk_sz = 1000;
  nnc_lim = u32 (2 ^ 20);
  init_subsdy = 10;
  subsdy_hlv_rt = 10;
  mx_hlvgs = 10;
  init_powd = calc_powd powd_num_zeros;
}

unfoldable pub nil_config : ℤ → Config
nil_config powd_num_zeros = record {
  has_mnr = false;
  ver = 0;
  def_lck_tm = 0;
  tx_p_cap = 50;
  pri_lim = 10;
  blk_sz = 1000;
  nnc_lim = u32 (2 ^ 20);
  init_subsdy = 10;
  subsdy_hlv_rt = 10;
  mx_hlvgs = 10;
  init_powd = calc_powd powd_num_zeros;
}

unfoldable pub small_tx_p_cap_config : ℤ → Config
small_tx_p_cap_config powd_num_zeros = record {
  has_mnr = true;
  ver = 0;
  def_lck_tm = 0;
  tx_p_cap = 1;
  pri_lim = 10;
  blk_sz = 1000;
  nnc_lim = u32 (2 ^ 20);
  init_subsdy = 10;
  subsdy_hlv_rt = 10;
  mx_hlvgs = 10;
  init_powd = calc_powd powd_num_zeros;
}
