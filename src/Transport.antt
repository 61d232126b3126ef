-- ===== src/Transport.antt =====
-- src/session/lifecycle.c and src/session/shutdown.c: the connection's lifecycle, from the start of
-- the connection to its end. Its state and the functions that read it stand in State, the functions
-- that change it in Shutdown and Lifecycle, interleaved calls in Calls.
pub mod State
pub mod Shutdown
pub mod Lifecycle
pub mod Calls
pub mod Update
pub mod Foreground
