-- ===== src/Hid.antt =====
-- src/hid/report.c with src/crc32.c: the reports of an input device's state, in full or as the bytes
-- that changed.
pub mod Crc32
pub mod Delta
pub mod Report
pub mod Bits
pub mod Marks
pub mod Patch
pub mod Staged
pub mod Room
pub mod Chain
pub mod Message
pub mod Sync
pub mod Calls
