-- ===== src/Wallet/Tests.antt =====
-- The theorems on the wallet at a concrete one.
use csci1951l_cryptocurrency.Prelude.{
  ℕ, ◌+◌, ◌*◌, ◌≤◌, ◌<◌, ◌⊎◌, [], ◌∷◌, Bool, true, false, none, some, ◌≡◌, refl, arith,
}
use csci1951l_cryptocurrency.Prelude.Word.{u32_mod}
use csci1951l_cryptocurrency.Prelude.Result.{ok}
use csci1951l_cryptocurrency.Text.{Bytes}
use csci1951l_cryptocurrency.Text.Decimal.{format}
use csci1951l_cryptocurrency.Text.Equality.{beq}
use csci1951l_cryptocurrency.Text.Hex.{encode_to_string}
use csci1951l_cryptocurrency.Dict.{lookup}
use csci1951l_cryptocurrency.Crypto.Toy.{toy, toy-IsSum256, alice_key, alice, alice-IsKeyPair}
use csci1951l_cryptocurrency.Tx.{Transaction}
use csci1951l_cryptocurrency.Tx.Txo.{TransactionOutput, mk_txo_loc, prs_txo_loc}
use csci1951l_cryptocurrency.Tx.Txo.Locator.{prs_txo_loc-mk}
use csci1951l_cryptocurrency.Blockchain
use csci1951l_cryptocurrency.Blockchain.{
  Blockchain, UtxoInfo, last_utxo, write_map, get_utxo_for_amt, collect, take_output, skip_output,
}
use csci1951l_cryptocurrency.Blockchain.Balance.{total}
use csci1951l_cryptocurrency.Blockchain.Range.Complete.{spendable, spendable-le}
use csci1951l_cryptocurrency.Blockchain.Funds.Complete.{IsMet, IsShort, get_utxo_for_amt_cases}
use csci1951l_cryptocurrency.Blockchain.Canonical.{IsCanonical}
use csci1951l_cryptocurrency.Blockchain.Config as ChainConfig
use csci1951l_cryptocurrency.Node.{Node}
use csci1951l_cryptocurrency.Node.Config
use csci1951l_cryptocurrency.Wallet.{Wallet, TxReq, hndl_blk}
use csci1951l_cryptocurrency.Wallet.Config as WalletConfig
use csci1951l_cryptocurrency.Wallet.Payment.{key_of}
use csci1951l_cryptocurrency.Wallet.Payment.Cases.{funds, IsPaid, IsRefused, hndl_tx_req_cases}
use csci1951l_cryptocurrency.Wallet.Resend.{IsHandled, hndl_blk_refines}
use csci1951l_cryptocurrency.Block.{Block}

abbrev purse : Wallet
purse = record {
  conf = WalletConfig.default_config;
  id = alice;
  lmnl_txs = record { tx_q = []; tx_rply_thresh = 3 };
  addr = [];
}

-- Two for someone and one for the miner.
abbrev order : TxReq
order = record { pub_k = 7 ∷ []; amt = 2; fee = 1 }

abbrev coin : Bool → ℕ → TransactionOutput
coin spent n = record { amount = n; locking_script = key_of alice; liminal = spent }

abbrev place : ℕ → Bytes
place i = mk_txo_loc (3 ∷ []) i

-- A chain of one block with outputs of four and five for the identity.
abbrev coins : Bool → Blockchain
coins spent = record {
  addr = [];
  blocks = [];
  last_block = Blockchain.root (Blockchain.genesis_block ChainConfig.default_config) 0 0;
  maps = write_map 0 ((place 0, coin spent 4) ∷ (place 1, coin false 5) ∷ []) (λ r. []);
}

-- The chain after the request, which marked the first.
abbrev marked : Blockchain
marked = record (coins false) {
  maps = write_map 0 ((place 0, coin true 4) ∷ (place 1, coin false 5) ∷ []) (coins false).maps;
}

found : UtxoInfo
found = record { tx_hsh = 3 ∷ []; out_idx = 0; utxo = coin true 4; amt = 4 }

abbrev sharer : Node
sharer = record {
  conf = Config.default_config 80;
  addr = [];
  id = alice;
  chain = marked;
  wallet = some purse;
  mnr = none;
  memory = record { at = λ r. record { addr = []; last_seen = 0; sent_ver = 0 }; next = 0 };
  addr_db = record { addresses = []; limit = 10 };
  peer_db = record { peers = []; limit = 10; own_addr = [] };
  tx_map = [];
  block_map = [];
}

place-parsed : prs_txo_loc (place 0) ≡ ok (3 ∷ [], 0)
place-parsed = prs_txo_loc-mk (3 ∷ []) 0 (ground arith, tt) (omega arith)

coins-IsCanonical : IsCanonical (last_utxo (coins false))
unfolding lookup mk_txo_loc format beq
coins-IsCanonical = (
  refl,
  record {
    tx_hash = 3 ∷ [];
    index = 0;
    named = refl;
    dashless = (ground arith, tt);
    fits = omega arith;
  },
  (
    refl,
    record {
      tx_hash = 3 ∷ [];
      index = 1;
      named = refl;
      dashless = (ground arith, tt);
      fits = omega arith;
    },
    tt,
  ),
)

coins-few : total (key_of alice) (last_utxo (coins false)) < u32_mod
unfolding beq encode_to_string
coins-few = omega arith

coins-found : get_utxo_for_amt 3 (key_of alice) (coins false) ≡ ok (some (found ∷ [], 1), marked)
unfolding get_utxo_for_amt collect take_output skip_output found beq encode_to_string
coins-found = rw place-parsed

get_utxo_for_amt_cases_example :
    ((3 ≤ spendable (key_of alice) (last_utxo (coins false)))
      × IsMet 3 (key_of alice) (coins false))
    ⊎ ((spendable (key_of alice) (last_utxo (coins false)) < 3)
        × IsShort 3 (key_of alice) (coins false))
get_utxo_for_amt_cases_example =
    get_utxo_for_amt_cases 3 (key_of alice) (coins false) coins-IsCanonical
      (omega (arith, coins-few, spendable-le (key_of alice) (last_utxo (coins false))))

abbrev treasury : Node
treasury = record sharer { chain = coins false }

coins-room :
    40 * Blockchain.get_utxo_len (key_of alice) (coins false) + 48 ≤ treasury.conf.mx_blk_sz
unfolding Blockchain.get_utxo_len beq encode_to_string Config.default_config
coins-room = omega arith

hndl_tx_req_cases_example :
    ((3 ≤ funds purse (coins false)) × IsPaid (λ i. []) order purse treasury)
    ⊎ ((funds purse (coins false) < 3) × IsRefused (λ i. []) order purse treasury)
unfolding Config.default_config
hndl_tx_req_cases_example =
    hndl_tx_req_cases (λ i. []) order purse treasury alice_key alice_key toy-IsSum256
      alice-IsKeyPair refl coins-IsCanonical coins-few (omega arith) (omega arith) coins-room
      (omega arith)

-- Three transactions that wait, and a safe block with the first, at which the second is too old.
abbrev waiting_tx : ℕ → Transaction
waiting_tx i = record { version = 0; inputs = []; outputs = []; lock_time = i }

abbrev waiting : Wallet
waiting = record purse {
  lmnl_txs = record {
    tx_q =
        record { p = 2; t = waiting_tx 1 }
        ∷ record { p = 2; t = waiting_tx 2 }
        ∷ record { p = 0; t = waiting_tx 3 }
        ∷ [];
    tx_rply_thresh = 3;
  };
}

abbrev settled : Block
settled = record {
  hdr = record {
    ver = 0;
    prv_blk_hsh = [];
    mrkl_rt = [];
    timestamp = 0;
    diff_targ = [];
    nonce = 0;
  };
  transactions = waiting_tx 1 ∷ [];
}

hndl_blk_refines_example :
    IsHandled settled waiting
      (hndl_blk (some settled) waiting).0
      (hndl_blk (some settled) waiting).1
hndl_blk_refines_example = hndl_blk_refines settled waiting
