-- ===== src/Net.antt =====
-- BrunoCoin/pkg/address, BrunoCoin/pkg/address/addressdb and BrunoCoin/pkg/peer.
pub mod Address
pub mod AddressDb
pub mod Client
pub mod PeerDb
pub mod Limits
pub mod Additions
pub mod Tests
