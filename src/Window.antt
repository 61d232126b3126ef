-- ===== src/Window.antt =====
-- src/session/window.c: the ring of received packets of one channel, from which frames are put
-- together and loss feedback is taken.
pub mod State
pub mod Insert
pub mod Poll
pub mod Feedback
pub mod Bitmap
pub mod Stamps
pub mod Ring
