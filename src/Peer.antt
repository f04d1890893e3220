-- ===== src/Peer.antt =====
-- The peer wire protocol: app/peer.
pub mod Messages
pub mod Stream
pub mod Handshake
pub mod Bitfield
pub mod Availability
pub mod Session
