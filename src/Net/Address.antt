-- ===== src/Net/Address.antt =====
-- BrunoCoin/pkg/address/address.go. The address database and the peers share the objects: an
-- address is held by reference, and the objects in memory are a table from references.
use csci1951l_cryptocurrency.Prelude.{ℕ, suc, ◌==◌, if◌then◌else◌}
use csci1951l_cryptocurrency.Text.{Bytes}

-- A time is a number of nanoseconds; the zero time is 0.
pub record Address : Type 0 where
  pub addr : Bytes
  pub last_seen : ℕ
  pub sent_ver : ℕ

-- The objects, and the first reference that is free.
pub record Memory : Type 0 where
  pub at : ℕ → Address
  pub next : ℕ

unfoldable pub new : Bytes → ℕ → Address
new addr last_seen = record { addr = addr; last_seen = last_seen; sent_ver = 0 }

-- `&Address{…}`
unfoldable pub alloc : Address → Memory → Memory
alloc a m = record { at = λ r. if m.next == r then a else m.at r; next = suc m.next }

-- A write to the object at a reference.
unfoldable pub write : ℕ → Address → Memory → Memory
write r a m = record m { at = λ s. if r == s then a else m.at s }

-- `proto.Address`
pub record ProtoAddress : Type 0 where
  pub addr : Bytes
  pub last_seen : ℕ

unfoldable pub serialize : Address → ProtoAddress
serialize a = record { addr = a.addr; last_seen = a.last_seen }
