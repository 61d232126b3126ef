-- ===== src/Retransmission.antt =====
-- src/session/retransmission.c, retransmission.h: the reliable packets that are kept until the peer
-- confirms them. The children hold the state, the feedback operations, the scan that sends, and
-- what is proved of them.
pub mod State
pub mod Feedback
pub mod Scan
pub mod Lookup
pub mod Ledger
pub mod Retention
pub mod Order
pub mod Serial
pub mod Handed
pub mod Late
