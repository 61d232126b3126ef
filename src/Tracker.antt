-- ===== src/Tracker.antt =====
-- src/session/frame_tracker.c: the tickets that follow video frames from their receipt to their end.
pub mod State
pub mod Ticket
pub mod Begin
pub mod Epoch
pub mod Calls
pub mod Held
pub mod Unheld
pub mod Walks
pub mod Steps
pub mod Runs
pub mod Reports
pub mod Lighter
pub mod Accounts
pub mod Once
