-- ===== src/Node/Handlers.antt =====
-- BrunoCoin/pkg/server.go: the requests of other nodes. The time of a request is an argument.
pub mod Relay
pub mod Greeting
pub mod Soundness
pub mod Mined
use csci1951l_cryptocurrency.Prelude.{
  ℕ, ◌+◌, List, [], ◌∷◌, ◌++◌, map, Bool, true, false, not, ◌&&◌, Option, none, some, length, ltb,
  ◌==◌, if◌then◌else◌,
}
use csci1951l_cryptocurrency.Prelude.Int.{pos, negsuc, sub_ℕ}
use csci1951l_cryptocurrency.Prelude.Word.{u32}
use csci1951l_cryptocurrency.Prelude.Result.{Result, ok, panic, ◌>>=◌}
use csci1951l_cryptocurrency.Text.{Bytes}
use csci1951l_cryptocurrency.Text.Equality.{beq}
use csci1951l_cryptocurrency.Utils.Logging.{fmt_addr}
use csci1951l_cryptocurrency.Dict.{Dict, lookup, insert}
use csci1951l_cryptocurrency.Crypto.{Crypto}
use csci1951l_cryptocurrency.Proto
use csci1951l_cryptocurrency.Proto.{VersionRequest}
use csci1951l_cryptocurrency.Tx
use csci1951l_cryptocurrency.Tx.{Transaction}
use csci1951l_cryptocurrency.Block
use csci1951l_cryptocurrency.Block.{Block}
use csci1951l_cryptocurrency.Blockchain
use csci1951l_cryptocurrency.Blockchain.{Blockchain}
use csci1951l_cryptocurrency.Net.Address
use csci1951l_cryptocurrency.Net.Address.{Address, Memory, ProtoAddress}
use csci1951l_cryptocurrency.Net.AddressDb
use csci1951l_cryptocurrency.Net.PeerDb
use csci1951l_cryptocurrency.Net.PeerDb.{Peer}
use csci1951l_cryptocurrency.Node.{
  Node, Outcome, Started, wallet_hndl_blk, mnr_hndl_tx, mnr_hndl_blk, forward_transaction_rpc,
  forward_block_rpc, version_rpc, answer_rpc, send_addresses_rpc,
}
use csci1951l_cryptocurrency.Node.Validation.{chk_tx, chk_blk}

-- A missing key of a map of flags reads as false.
unfoldable pub seen : Bytes → Dict Bool → Bool
seen k m = elim (lookup k m) [ none ↦ false | some b ↦ b ]

module _ ⦃crypto : Crypto⦄ where
  -- A handler that leaves the node as it was.
  abbrev pub unchanged : Node → Bool → Outcome
  unchanged n failed = record { node = n; started = []; failed = failed }

  -- Whether the request came from a peer, whose address is then seen at this time.
  pub peer_check : Bytes → ℕ → Node → Node × Bool
  peer_check addr now n = elim (PeerDb.get addr n.peer_db) [
    | none ↦ (n, false)
    | some p ↦
        (record n { memory = (PeerDb.update_last_seen addr (u32 now) n.memory n.peer_db).1 }, true)
  ]

  -- The request for a connection that this node sends.
  our_version : Bytes → Node → VersionRequest
  our_version you n = record {
    version = u32 n.conf.version;
    addr_you = you;
    addr_me = n.addr;
    best_height = u32 (Blockchain.length_of n.chain);
  }

  -- The address of the sender in the database, at a fresh object or at the known one, or an error.
  pub know_address : Bytes → ℕ → Node → Option (ℕ × Node)
  know_address addr seen_at n = elim (AddressDb.get addr n.addr_db) [
    | some r ↦
        some
          (r, record n { memory = (AddressDb.update_last_seen addr seen_at n.memory n.addr_db).1 })
    | none ↦
        let m = Address.alloc (Address.new addr seen_at) n.memory in
        let (e, adb) = AddressDb.add n.memory.next m n.addr_db in
        elim e [
          | some err ↦ none
          | none ↦ some (n.memory.next, record n { memory = m; addr_db = adb })
        ]
  ]

  -- The reference of the request's address object, if it was entered into the database.
  new_object : Bytes → ℕ → Node → Option ℕ
  new_object addr r n = elim (AddressDb.get addr n.addr_db) [ none ↦ some r | some _ ↦ none ]

  -- The rest of `Version` with the address object at `r`: the peer is added, and answered unless it
  -- confirms our own request. The object of the request to it is the one at `r` only if that is new.
  -- The request is taken as answered.
  answer_version : VersionRequest → ℕ → Option ℕ → ℕ → Node → Outcome
  answer_version req now new r n =
      let a = n.memory.at r in
      let peer : Peer = record { addr = r; version = req.version; best_height = req.best_height } in
      let pending = not (a.sent_ver == 0) && ltb now (a.sent_ver + n.conf.ver_timeout) in
      let (added, pdb) = PeerDb.add peer n.memory n.peer_db in
      let n' = record n { peer_db = pdb } in
      if added && not pending
      then record {
        node = record n' { memory = Address.write r (record a { sent_ver = now }) n.memory };
        started = answer_rpc new req.addr_me (our_version req.addr_me n') ∷ [];
        failed = false;
      }
      else unchanged n' false

  -- A request of another version and one that cannot be recorded are ignored.
  pub version : VersionRequest → ℕ → Node → Outcome
  unfolding answer_version our_version new_object
  version req now n =
      if not (req.version == n.conf.version)
      then unchanged n false
      else elim (know_address req.addr_me (u32 now) n) [
        | none ↦ unchanged n false
        | some (r, n') ↦ answer_version req now (new_object req.addr_me r n) r n'
      ]

  -- The hashes of up to 499 blocks that follow the block with the given hash on the main chain.
  unfoldable pub get_blocks : Bytes → Node → List Bytes
  get_blocks top_block_hash n =
      let ind = Blockchain.index_of top_block_hash n.chain in
      let size = Blockchain.length_of n.chain in
      elim ind [
        | negsuc _ ↦ []
        | pos i ↦
            if ltb i size
            then map Block.hash (
                Blockchain.slice (pos (i + 1)) (pos (if ltb (i + 500) size then i + 500 else size))
                  n.chain)
            else []
      ]

  -- The block with a hash; `Get` reads through nil at an unknown one.
  unfoldable pub get_data : Bytes → Node → Result (Option Proto.Block)
  get_data block_hash n = do
    blk ← Blockchain.get block_hash n.chain
    ok (some (Block.serialize blk))

  -- One address of `SendAddresses`: the new node, whether something new was found, and the reference
  -- of the new object, if it was entered into the database.
  learn_address : ProtoAddress → Node → Node × Bool × Option ℕ
  learn_address a n = elim (PeerDb.get a.addr n.peer_db) [
    | some p ↦
        if ltb (n.memory.at p.addr).last_seen a.last_seen
        then (
          record n { memory = (PeerDb.update_last_seen a.addr a.last_seen n.memory n.peer_db).1 },
          true,
          none,
        )
        else (n, false, none)
    | none ↦ elim (AddressDb.get a.addr n.addr_db) [
      | some r ↦
          if ltb (n.memory.at r).last_seen a.last_seen
          then (
            record n {
              memory = (AddressDb.update_last_seen a.addr a.last_seen n.memory n.addr_db).1;
            },
            false,
            none,
          )
          else (n, false, none)
      | none ↦
          let m = Address.alloc (Address.new a.addr a.last_seen) n.memory in
          let (e, adb) = AddressDb.add n.memory.next m n.addr_db in
          elim e [
            | some err ↦ (n, false, none)
            | none ↦ (record n { memory = m; addr_db = adb }, true, some n.memory.next)
          ]
    ]
  ]

  -- The loop of `SendAddresses`, which asks each address but the own for a connection.
  learn_all : List ProtoAddress → Bool → Node → Node × Bool × List Started
  learn_all [] found n = (n, found, [])
  learn_all (a ∷ addrs) found n =
      let (n', new, object) = learn_address a n in
      let own = beq a.addr n.addr in
      let (n'', found', started) =
        learn_all addrs (if own then found else if new then true else found)
          (if own then n else n') in
      (
        n'',
        found',
        if own then started else version_rpc object a.addr (our_version a.addr n') ∷ started,
      )

  pub send_addresses : (List Bytes → List Bytes) → List ProtoAddress → Node → Result Outcome
  unfolding learn_all learn_address our_version
  send_addresses shuffle addrs n =
      let (n', found, started) = learn_all addrs false n in
      let told = do
        bc_peers ← PeerDb.get_random shuffle 2 (n'.addr ∷ []) n'.peer_db
        ok (record {
          node = n';
          started = started ++ map (λ p. send_addresses_rpc p addrs) bc_peers;
          failed = false;
        })
      in if found then told else ok (record { node = n'; started = started; failed = false })

  pub get_addresses : Node → List ProtoAddress
  get_addresses n = AddressDb.serialize_all n.memory n.addr_db

  -- An accepted transaction goes to the miner and to every peer.
  unfoldable pub accept_tx : Transaction → Node → Outcome
  accept_tx t n = record {
    node = record n { tx_map = insert (Tx.hash t) true n.tx_map };
    started =
        (if n.conf.mnr_conf.has_mnr then mnr_hndl_tx t ∷ [] else [])
        ++ map (λ p. forward_transaction_rpc p (Tx.serialize t)) (PeerDb.list n.peer_db);
    failed = false;
  }

  -- Either answer of the check is printed, with the own address.
  unfoldable pub forward_transaction : Proto.Transaction → Node → Result Outcome
  forward_transaction inp n =
      let t = Tx.deserialize inp in
      let checked = do
        valid ← chk_tx (some t) n
        from ← fmt_addr n.addr
        tag ← Tx.name_tag t
        ok (if not valid then unchanged n true else accept_tx t n)
      in if seen (Tx.hash t) n.tx_map then ok (unchanged n false) else checked

  -- The block that is deep enough for the wallet, if the chain has as many blocks as it waits for.
  -- Where it waits for none, the code reads the first block of an empty slice.
  pub safe_block : ℕ → Blockchain → Result (List Started)
  safe_block amt chain =
      let size = Blockchain.length_of chain in
      elim (Blockchain.slice (sub_ℕ size amt) (pos size) chain) [
        | [] ↦ if amt == 0 then panic else ok []
        | b ∷ blks ↦ ok (if length (b ∷ blks) == amt then wallet_hndl_blk b ∷ [] else [])
      ]

  -- A valid block goes to the chain, and, on the main chain, to the miner and the wallet.
  pub accept_block : Block → Node → Result Outcome
  accept_block b n =
      let mn_chn = Blockchain.is_end_main_chain b n.chain in
      do
        chain ← Blockchain.add (some b) n.chain
        safe ←
            if n.conf.wt_conf.has_wt && mn_chn
            then safe_block n.conf.wt_conf.safe_blk_amt chain
            else ok []
        ok (record {
          node = record n { chain = chain };
          started =
              (if n.conf.mnr_conf.has_mnr && mn_chn then mnr_hndl_blk b ∷ [] else [])
              ++ (safe
                  ++ map (λ p. forward_block_rpc p (Block.serialize b)) (PeerDb.list n.peer_db));
          failed = false;
        })

  -- A block counts as seen before it is checked. That it is refused is printed.
  unfoldable pub forward_block : Proto.Block → Node → Result Outcome
  forward_block inp n = do
    b ← Block.deserialize inp
    let n' = record n { block_map = insert (Block.hash b) true n.block_map }
    let checked = do
      valid ← chk_blk (some b) n'
      let accepted = accept_block b n'
      let refused = (do from ← fmt_addr n.addr; tag ← Block.name_tag b; ok (unchanged n' true))
      if not valid then refused else accepted
    if seen (Block.hash b) n.block_map then ok (unchanged n false) else checked
