-- ===== src/Blockchain/Config.antt =====
-- BrunoCoin/pkg/blockchain/config.go
use csci1951l_cryptocurrency.Prelude.{ℕ, Bool, true, false}
use csci1951l_cryptocurrency.Text.{Bytes, codes}

-- `GENPK`
abbrev pub genpk : Bytes
genpk =
    codes
      "3059301306072a8648ce3d020106082a8648ce3d030107034200042418a20458559ae13a0d4bb6ac284c66a5cebb5689563d4cf573473d8c6d5abfa9a21a65dbb3ba2f2d930be7f763f940f9864abaf199a0f0d8d14bedda2dcad9"

pub record Config : Type 0 where
  pub has_chn : Bool
  pub init_sbsdy : ℕ
  pub gen_pk : Bytes

unfoldable pub default_config : Config
default_config = record { has_chn = true; init_sbsdy = 100000; gen_pk = genpk }

pub nil_config : Config
nil_config = record { has_chn = false; init_sbsdy = 100000; gen_pk = genpk }
