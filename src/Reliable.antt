-- ===== src/Reliable.antt =====
-- src/session/reliable.c, reliable.h: the feedback on what is sent reliably, and what is received so.
pub mod Nack
pub mod Kept
pub mod Held
pub mod Received
pub mod Feedback
