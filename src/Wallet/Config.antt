-- ===== src/Wallet/Config.antt =====
-- BrunoCoin/pkg/wallet/config.go
use csci1951l_cryptocurrency.Prelude.{ℕ, Bool, true, false}

pub record Config : Type 0 where
  pub has_wt : Bool
  pub tx_rply_thresh : ℕ
  pub safe_blk_amt : ℕ
  pub tx_ver : ℕ
  pub def_lck_tm : ℕ

abbrev pub default_config : Config
default_config = record {
  has_wt = true;
  tx_rply_thresh = 3;
  safe_blk_amt = 5;
  tx_ver = 0;
  def_lck_tm = 0;
}

abbrev pub nil_config : Config
nil_config = record {
  has_wt = false;
  tx_rply_thresh = 0;
  safe_blk_amt = 0;
  tx_ver = 0;
  def_lck_tm = 0;
}
