-- ===== src/Channel.antt =====
-- src/session/channels/channel.c: a frame is sent as packets.
pub mod Fragments
pub mod Split
