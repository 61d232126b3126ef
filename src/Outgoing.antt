-- ===== src/Outgoing.antt =====
-- src/session/outgoing.c: the windows of packets that are sent unreliably.
pub mod Cache
pub mod Reports
pub mod Cells
pub mod Copies
pub mod Growth
pub mod Put
pub mod Retained
