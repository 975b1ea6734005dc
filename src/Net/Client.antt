-- ===== src/Net/Client.antt =====
-- BrunoCoin/pkg/address/client.go: calls of another node. What dials and calls is the gRPC library
-- and its stubs: a parameter.
pub mod Protocol
use csci1951l_cryptocurrency.Prelude.{ℕ, ◌+◌, ◌*◌, List, Bool, Option, none, some}
use csci1951l_cryptocurrency.Text.{Bytes}
use csci1951l_cryptocurrency.Proto
use csci1951l_cryptocurrency.Proto.{VersionRequest}
use csci1951l_cryptocurrency.Net.Address.{Address, Memory, ProtoAddress, write}

-- `RPCTimeout`, in nanoseconds.
abbrev pub rpc_timeout : ℕ
rpc_timeout = 2 * 1000000000

-- The library and its stubs. Each operation changes the state of the library: dialing an address
-- gives a connection or an error; a method of a stub, which is given up at a deadline, gives a reply or
-- an error; closing a connection says whether there was an error. Listening at an address gives a
-- server that serves there, or an error, and a server is stopped at once or after its calls. A block that a reply lacks is
-- `none`.
pub record Grpc (Conn World : Type 0) : Type 0 where
  pub dial : Bytes → World → Option Conn × World
  pub version : Conn → ℕ → VersionRequest → World → Option Proto.Empty × World
  pub get_blocks : Conn → ℕ → Bytes → World → Option (List Bytes) × World
  pub get_data : Conn → ℕ → Bytes → World → Option (Option Proto.Block) × World
  pub get_addresses : Conn → ℕ → World → Option (List ProtoAddress) × World
  pub send_addresses : Conn → ℕ → List ProtoAddress → World → Option Proto.Empty × World
  pub forward_transaction : Conn → ℕ → Proto.Transaction → World → Option Proto.Empty × World
  pub forward_block : Conn → ℕ → Proto.Block → World → Option Proto.Empty × World
  pub close : Conn → World → Bool × World
  pub listen : Bytes → World → Option Conn × World
  pub stop : Conn → World → World
  pub graceful_stop : Conn → World → World

-- In each method, closing is deferred to the end; that it failed is printed.
module _ {Conn World : Type 0} (grpc : Grpc Conn World) where
  -- `connectToServer`
  unfoldable connect_to_server : Bytes → World → Option Conn × World
  connect_to_server addr w = grpc.dial addr w

  -- The deadline that the interceptor puts on a call at a time.
  unfoldable client_unary_interceptor :
      {R : Type 0} → ℕ → (ℕ → World → Option R × World) → World → Option R × World
  client_unary_interceptor now invoker w = invoker (now + rpc_timeout) w

  -- `GetConnection`
  unfoldable pub get_connection : Address → World → Option Conn × World
  unfolding connect_to_server
  get_connection a w = connect_to_server a.addr w

  -- The object at the reference is marked as asked at the time `after` that the call returned, before
  -- the connection is closed, unless there was no connection.
  unfoldable pub version_rpc :
      ℕ → ℕ → VersionRequest → ℕ → Memory → World → (Option Proto.Empty × World) × Memory
  unfolding get_connection client_unary_interceptor
  version_rpc now after request r m w =
      let (cc, opened) = get_connection (m.at r) w in
      elim cc [
        | none ↦ ((none, opened), m)
        | some conn ↦
            let (reply, called) =
              client_unary_interceptor now (λ deadline. grpc.version conn deadline request)
                opened in
            ((reply, (grpc.close conn called).1), write r (record (m.at r) { sent_ver = after }) m)
      ]

  unfoldable pub get_blocks_rpc : ℕ → Bytes → Address → World → Option (List Bytes) × World
  unfolding get_connection client_unary_interceptor
  get_blocks_rpc now top_block_hash a w =
      let (cc, opened) = get_connection a w in
      elim cc [
        | none ↦ (none, opened)
        | some conn ↦
            let (reply, called) =
              client_unary_interceptor now
                (λ deadline. grpc.get_blocks conn deadline top_block_hash) opened in
            (reply, (grpc.close conn called).1)
      ]

  unfoldable pub get_data_rpc : ℕ → Bytes → Address → World → Option (Option Proto.Block) × World
  unfolding get_connection client_unary_interceptor
  get_data_rpc now block_hash a w =
      let (cc, opened) = get_connection a w in
      elim cc [
        | none ↦ (none, opened)
        | some conn ↦
            let (reply, called) =
              client_unary_interceptor now (λ deadline. grpc.get_data conn deadline block_hash)
                opened in
            (reply, (grpc.close conn called).1)
      ]

  unfoldable pub get_addresses_rpc : ℕ → Address → World → Option (List ProtoAddress) × World
  unfolding get_connection client_unary_interceptor
  get_addresses_rpc now a w =
      let (cc, opened) = get_connection a w in
      elim cc [
        | none ↦ (none, opened)
        | some conn ↦
            let (reply, called) =
              client_unary_interceptor now (λ deadline. grpc.get_addresses conn deadline) opened in
            (reply, (grpc.close conn called).1)
      ]

  unfoldable pub send_addresses_rpc :
      ℕ → List ProtoAddress → Address → World → Option Proto.Empty × World
  unfolding get_connection client_unary_interceptor
  send_addresses_rpc now addrs a w =
      let (cc, opened) = get_connection a w in
      elim cc [
        | none ↦ (none, opened)
        | some conn ↦
            let (reply, called) =
              client_unary_interceptor now (λ deadline. grpc.send_addresses conn deadline addrs)
                opened in
            (reply, (grpc.close conn called).1)
      ]

  unfoldable pub forward_transaction_rpc :
      ℕ → Proto.Transaction → Address → World → Option Proto.Empty × World
  unfolding get_connection client_unary_interceptor
  forward_transaction_rpc now t a w =
      let (cc, opened) = get_connection a w in
      elim cc [
        | none ↦ (none, opened)
        | some conn ↦
            let (reply, called) =
              client_unary_interceptor now (λ deadline. grpc.forward_transaction conn deadline t)
                opened in
            (reply, (grpc.close conn called).1)
      ]

  unfoldable pub forward_block_rpc : ℕ → Proto.Block → Address → World → Option Proto.Empty × World
  unfolding get_connection client_unary_interceptor
  forward_block_rpc now b a w =
      let (cc, opened) = get_connection a w in
      elim cc [
        | none ↦ (none, opened)
        | some conn ↦
            let (reply, called) =
              client_unary_interceptor now (λ deadline. grpc.forward_block conn deadline b)
                opened in
            (reply, (grpc.close conn called).1)
      ]
