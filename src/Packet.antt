-- ===== src/Packet.antt =====
-- src/session/packet.h and packet.c: the packet header, its wire form, and whole packets.
pub mod Header
pub mod Codec
pub mod Wire
pub mod RoundTrip
pub mod Populate
