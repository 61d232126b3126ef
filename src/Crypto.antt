-- ===== src/Crypto.antt =====
-- src/crypto/impl_mbedtls.c, src/session/frame_crypto.c: the symmetric encryption of messages.
pub mod Library
pub mod Cbc
pub mod Blocks
pub mod Padding
pub mod Frame
pub mod Sequence
