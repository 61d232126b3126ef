-- ===== src/Queue.antt =====
-- src/ihs_queue.c: the linked queue that holds packets to send and timer tasks. `Defs` has its
-- operations, `Order` what they do to the order of the items.
pub mod Defs
pub mod Order
