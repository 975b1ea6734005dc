-- ===== src/Node/Config.antt =====
-- BrunoCoin/pkg/config.go. A port and a duration are plain numbers, a duration in nanoseconds.
use csci1951l_cryptocurrency.Prelude.{ℕ, ◌*◌, Option, none}
use csci1951l_cryptocurrency.Prelude.Int.{negsuc}
use csci1951l_cryptocurrency.Crypto.{Crypto}
use csci1951l_cryptocurrency.Crypto.Id.{SimpleId}
use csci1951l_cryptocurrency.Miner.Config as MinerConfig
use csci1951l_cryptocurrency.Wallet.Config as WalletConfig
use csci1951l_cryptocurrency.Blockchain.Config as ChainConfig

module _ ⦃crypto : Crypto⦄ where
  -- `cstm_id` is the custom identity if `CstmID` is set. The configuration of the identity is empty.
  pub record Config : Type 0 where
    pub mnr_conf : MinerConfig.Config
    pub wt_conf : WalletConfig.Config
    pub chain_conf : ChainConfig.Config
    pub cstm_id : Option SimpleId
    pub version : ℕ
    pub peer_limit : ℕ
    pub addr_limit : ℕ
    pub port : ℕ
    pub ver_timeout : ℕ
    pub mx_blk_sz : ℕ

  unfoldable pub default_config : ℕ → Config
  default_config port = record {
    mnr_conf = MinerConfig.default_config (negsuc 0);
    wt_conf = WalletConfig.default_config;
    chain_conf = ChainConfig.default_config;
    cstm_id = none;
    version = 0;
    peer_limit = 20;
    addr_limit = 1000;
    port = port;
    ver_timeout = 2 * 1000000000;
    mx_blk_sz = 10000000;
  }

  -- `TestingConfig` has the same settings.
  unfoldable pub testing_config : ℕ → Config
  testing_config port = record {
    mnr_conf = MinerConfig.default_config (negsuc 0);
    wt_conf = WalletConfig.default_config;
    chain_conf = ChainConfig.default_config;
    cstm_id = none;
    version = 0;
    peer_limit = 20;
    addr_limit = 1000;
    port = port;
    ver_timeout = 2 * 1000000000;
    mx_blk_sz = 10000000;
  }

  unfoldable pub nil_config : ℕ → Config
  nil_config port = record {
    mnr_conf = MinerConfig.nil_config (negsuc 0);
    wt_conf = WalletConfig.nil_config;
    chain_conf = ChainConfig.nil_config;
    cstm_id = none;
    version = 0;
    peer_limit = 20;
    addr_limit = 1000;
    port = port;
    ver_timeout = 2 * 1000000000;
    mx_blk_sz = 10000000;
  }

  unfoldable pub no_mnr_config : ℕ → Config
  no_mnr_config port = record {
    mnr_conf = MinerConfig.nil_config (negsuc 0);
    wt_conf = WalletConfig.default_config;
    chain_conf = ChainConfig.default_config;
    cstm_id = none;
    version = 1;
    peer_limit = 20;
    addr_limit = 1000;
    port = port;
    ver_timeout = 2 * 1000000000;
    mx_blk_sz = 10000000;
  }

  unfoldable pub small_tx_p_config : ℕ → Config
  small_tx_p_config port = record {
    mnr_conf = MinerConfig.small_tx_p_cap_config (negsuc 0);
    wt_conf = WalletConfig.default_config;
    chain_conf = ChainConfig.default_config;
    cstm_id = none;
    version = 0;
    peer_limit = 20;
    addr_limit = 1000;
    port = port;
    ver_timeout = 2 * 1000000000;
    mx_blk_sz = 10000000;
  }
