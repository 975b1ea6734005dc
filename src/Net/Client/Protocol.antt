-- ===== src/Net/Client/Protocol.antt =====
-- How the methods of `Address` use a connection: their calls of the library, recorded.
use csci1951l_cryptocurrency.Prelude.{
  ℕ, List, [], ◌∷◌, ◌++◌, Option, none, some, Option-cases, inl, inr,
}
use csci1951l_cryptocurrency.Text.{Bytes}
use csci1951l_cryptocurrency.Proto
use csci1951l_cryptocurrency.Proto.{VersionRequest}
use csci1951l_cryptocurrency.Net.Address.{Address, Memory, ProtoAddress}
use csci1951l_cryptocurrency.Net.Client.{
  Grpc, get_connection, client_unary_interceptor, connect_to_server, version_rpc, get_blocks_rpc,
  get_data_rpc, get_addresses_rpc, send_addresses_rpc, forward_transaction_rpc, forward_block_rpc,
}

-- The methods of a stub.
pub data Method : Type 0 where
  to_version to_get_blocks to_get_data to_get_addresses to_send_addresses to_forward_transaction
        to_forward_block :
      Method

-- A call of the library: an address that was dialed, in vain or with a connection, a method that was
-- called over a connection, and a connection that was closed.
pub data Event (Conn : Type 0) : Type 0 where
  refused : Bytes → Event Conn
  opened : Bytes → Conn → Event Conn
  called : Method → Conn → Event Conn
  closed : Conn → Event Conn

abbrev pub dialed : {Conn : Type 0} → Bytes → Option Conn → Event Conn
dialed addr none = refused addr
dialed addr (some conn) = opened addr conn

-- A result, with an event noted after those before.
abbrev pub noted :
    {Conn World A : Type 0}
    → Event Conn
    → List (Event Conn)
    → A × World
    → A × (World × List (Event Conn))
noted e es r = (r.0, (r.1, es ++ e ∷ []))

-- The library with a record of its calls in its state.
abbrev pub recording :
    {Conn World : Type 0} → Grpc Conn World → Grpc Conn (World × List (Event Conn))
recording g = record {
  dial = λ addr w. noted (dialed addr (g.dial addr w.0).0) w.1 (g.dial addr w.0);
  version = λ c d x w. noted (called to_version c) w.1 (g.version c d x w.0);
  get_blocks = λ c d x w. noted (called to_get_blocks c) w.1 (g.get_blocks c d x w.0);
  get_data = λ c d x w. noted (called to_get_data c) w.1 (g.get_data c d x w.0);
  get_addresses = λ c d w. noted (called to_get_addresses c) w.1 (g.get_addresses c d w.0);
  send_addresses = λ c d x w. noted (called to_send_addresses c) w.1 (g.send_addresses c d x w.0);
  forward_transaction =
      λ c d x w. noted (called to_forward_transaction c) w.1 (g.forward_transaction c d x w.0);
  forward_block = λ c d x w. noted (called to_forward_block c) w.1 (g.forward_block c d x w.0);
  close = λ c w. noted (closed c) w.1 (g.close c w.0);
  listen = λ addr w. ((g.listen addr w.0).0, ((g.listen addr w.0).1, w.1));
  stop = λ c w. (g.stop c w.0, w.1);
  graceful_stop = λ c w. (g.graceful_stop c w.0, w.1);
}

-- The calls of a method: no connection was had, or one was opened, the given method called over it, and it
-- was closed.
pub data IsOneCall {Conn : Type 0} (m : Method) (addr : Bytes) : List (Event Conn) → Type 0 where
  fails : IsOneCall m addr (refused addr ∷ [])
  succeeds : (conn : Conn) → IsOneCall m addr (opened addr conn ∷ called m conn ∷ closed conn ∷ [])

module _ {Conn World : Type 0} (grpc : Grpc Conn World) where
  -- Run from a library state with nothing recorded, each of the seven methods dials its address once;
  -- without a connection it ends there, and with one it calls its method of the stub over it and then closes it,
  -- whatever the library answers.
  pub rpc-IsOneCall :
      (now after : ℕ) (a : Address) (r : ℕ) (m : Memory) (request : VersionRequest) (hash : Bytes)
      (addrs : List ProtoAddress) (t : Proto.Transaction) (b : Proto.Block) (w : World)
      → IsOneCall to_version
          (m.at r).addr
          (version_rpc (recording grpc) now after request r m (w, [])).0.1.1
        × IsOneCall to_get_blocks a.addr (get_blocks_rpc (recording grpc) now hash a (w, [])).1.1
        × IsOneCall to_get_data a.addr (get_data_rpc (recording grpc) now hash a (w, [])).1.1
        × IsOneCall to_get_addresses a.addr (get_addresses_rpc (recording grpc) now a (w, [])).1.1
        × IsOneCall to_send_addresses a.addr
            (send_addresses_rpc (recording grpc) now addrs a (w, [])).1.1
        × IsOneCall to_forward_transaction a.addr
            (forward_transaction_rpc (recording grpc) now t a (w, [])).1.1
        × IsOneCall to_forward_block a.addr (forward_block_rpc (recording grpc) now b a (w, [])).1.1
  unfolding version_rpc get_blocks_rpc get_data_rpc get_addresses_rpc send_addresses_rpc
      forward_transaction_rpc forward_block_rpc get_connection connect_to_server
      client_unary_interceptor
  rpc-IsOneCall now after a r m request hash addrs t b w =
      let first =
        elim (Option-cases (grpc.dial (m.at r).addr w).0)
          as (λ x.
            IsOneCall to_version (m.at r).addr
              (version_rpc (recording grpc) now after request r m (w, [])).0.1.1) [
                | inl failed ↦ rw (version_rpc, failed, get_connection, failed) fails
                | inr (conn, had) ↦ rw (version_rpc, had, get_connection, had) (succeeds conn)
              ] in
      elim (Option-cases (grpc.dial a.addr w).0) [
        | inl failed ↦
            rw
              (
                get_blocks_rpc, get_data_rpc, get_addresses_rpc, send_addresses_rpc,
                forward_transaction_rpc, forward_block_rpc, failed, get_connection, failed,
              )
              (first, fails, fails, fails, fails, fails, fails)
        | inr (conn, had) ↦
            rw
              (
                get_blocks_rpc, get_data_rpc, get_addresses_rpc, send_addresses_rpc,
                forward_transaction_rpc, forward_block_rpc, had, get_connection, had,
              )
              (
                first,
                succeeds conn,
                succeeds conn,
                succeeds conn,
                succeeds conn,
                succeeds conn,
                succeeds conn,
              )
      ]
