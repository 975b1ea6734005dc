-- ===== src/Net/Tests.antt =====
-- The methods of an address at a concrete library.
use csci1951l_cryptocurrency.Prelude.{ℕ, ◌+◌, [], ◌∷◌, none, some, false}
use csci1951l_cryptocurrency.Proto
use csci1951l_cryptocurrency.Proto.{VersionRequest}
use csci1951l_cryptocurrency.Net.Address.{Memory}
use csci1951l_cryptocurrency.Net.Client
use csci1951l_cryptocurrency.Net.Client.{Grpc}
use csci1951l_cryptocurrency.Net.Client.Protocol.{
  to_version, to_get_blocks, to_get_data, to_get_addresses, to_send_addresses,
  to_forward_transaction, to_forward_block, recording, IsOneCall, rpc-IsOneCall,
}

-- Two address objects, with the names `1` and `2`.
abbrev objects : Memory
objects = record { at = λ r. record { addr = (r + 1) ∷ []; last_seen = 7; sent_ver = 0 }; next = 2 }

-- A library that counts the connections it gave to addresses, where a node answers all but a request
-- for a block.
abbrev pub answering : Grpc ℕ ℕ
answering = record {
  dial = λ addr w. (some w, w + 1);
  version = λ c deadline r w. (some Proto.empty, w);
  get_blocks = λ c deadline h w. (some [], w);
  get_data = λ c deadline h w. (none, w);
  get_addresses = λ c deadline w. (some [], w);
  send_addresses = λ c deadline addrs w. (some Proto.empty, w);
  forward_transaction = λ c deadline t w. (some Proto.empty, w);
  forward_block = λ c deadline b w. (some Proto.empty, w);
  close = λ c w. (false, w);
  listen = λ addr w. (some w, w + 1);
  stop = λ c w. w;
  graceful_stop = λ c w. w;
}

abbrev greeting : VersionRequest
greeting = record { version = 0; addr_you = 1 ∷ []; addr_me = 2 ∷ []; best_height = 1 }

abbrev sent_tx : Proto.Transaction
sent_tx = record { version = 0; inputs = []; outputs = []; lock_time = 0 }

abbrev sent_blk : Proto.Block
sent_blk = record { header = none; transactions = sent_tx ∷ [] }

rpc-IsOneCall_example :
    IsOneCall to_version
      (2 ∷ [])
      (Client.version_rpc (recording answering) 5 6 greeting 1 objects (0, [])).0.1.1
    × IsOneCall to_get_blocks
        (1 ∷ [])
        (Client.get_blocks_rpc (recording answering) 5 (9 ∷ []) (objects.at 0) (0, [])).1.1
    × IsOneCall to_get_data
        (1 ∷ [])
        (Client.get_data_rpc (recording answering) 5 (9 ∷ []) (objects.at 0) (0, [])).1.1
    × IsOneCall to_get_addresses
        (1 ∷ [])
        (Client.get_addresses_rpc (recording answering) 5 (objects.at 0) (0, [])).1.1
    × IsOneCall to_send_addresses
        (1 ∷ [])
        (Client.send_addresses_rpc (recording answering) 5 [] (objects.at 0) (0, [])).1.1
    × IsOneCall to_forward_transaction
        (1 ∷ [])
        (Client.forward_transaction_rpc (recording answering) 5 sent_tx (objects.at 0) (0, [])).1.1
    × IsOneCall to_forward_block
        (1 ∷ [])
        (Client.forward_block_rpc (recording answering) 5 sent_blk (objects.at 0) (0, [])).1.1
rpc-IsOneCall_example =
    rpc-IsOneCall answering 5 6 (objects.at 0) 1 objects greeting (9 ∷ []) [] sent_tx sent_blk 0
