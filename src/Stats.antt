-- ===== src/Stats.antt =====
-- src/session/network_stats.c: the collectors of the connection's statistics. Samples has the ring
-- that they keep their samples in, Collectors what they record, Ring how the ring stands for a list,
-- Growth that it still does after it has grown, Sums how the running sums follow from the list.
pub mod Samples
pub mod Collectors
pub mod Ring
pub mod Growth
pub mod Expiry
pub mod Sums
pub mod Packets
