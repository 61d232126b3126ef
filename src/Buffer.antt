-- ===== src/Buffer.antt =====
-- src/ihs_buffer.c and ihs_buffer.h: the growable byte buffer under every packet and frame.
pub mod Defs
pub mod Laws
pub mod Writes
