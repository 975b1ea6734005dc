-- ===== src/Net/AddressDb.antt =====
-- BrunoCoin/pkg/address/addressdb. The lock of the database is never taken: each operation is what
-- it does when no other runs at the same time.
use csci1951l_cryptocurrency.Prelude.{
  ℕ, List, [], Option, none, some, length, leb, if◌then◌else◌, map,
}
use csci1951l_cryptocurrency.Text.{Bytes}
use csci1951l_cryptocurrency.Dict.{Dict, lookup, insert}
use csci1951l_cryptocurrency.Net.Address.{Memory, ProtoAddress, write, serialize}

pub record EphemeralAddressDb : Type 0 where
  pub addresses : Dict ℕ
  pub limit : ℕ

pub data AddrError : Type 0 where
  exists full not_found : AddrError

unfoldable pub new : ℕ → EphemeralAddressDb
new limit = record { addresses = []; limit = limit }

-- The address object at reference `r` is entered under its name.
unfoldable pub add : ℕ → Memory → EphemeralAddressDb → Option AddrError × EphemeralAddressDb
add r m adb = elim (lookup (m.at r).addr adb.addresses) [
  | some old ↦ (some exists, adb)
  | none ↦
      if leb adb.limit (length adb.addresses)
      then (some full, adb)
      else (none, record adb { addresses = insert (m.at r).addr r adb.addresses })
]

unfoldable pub get : Bytes → EphemeralAddressDb → Option ℕ
get addr adb = lookup addr adb.addresses

pub update_last_seen : Bytes → ℕ → Memory → EphemeralAddressDb → Option AddrError × Memory
update_last_seen addr last_seen m adb = elim (lookup addr adb.addresses) [
  | none ↦ (some not_found, m)
  | some r ↦ (none, write r (record (m.at r) { last_seen = last_seen }) m)
]

pub list : EphemeralAddressDb → List ℕ
list adb = map (λ (e : Bytes × ℕ). e.1) adb.addresses

-- `Serialize` of the database.
pub serialize_all : Memory → EphemeralAddressDb → List ProtoAddress
serialize_all m adb = map (λ (e : Bytes × ℕ). serialize (m.at e.1)) adb.addresses
