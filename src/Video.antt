-- ===== src/Video.antt =====
-- src/session/channels/video: how a video frame is put together from its fragments.
pub mod Nal
pub mod Escaping
pub mod Append
