-- ===== src/Control.antt =====
-- src/session/channels/ch_control.c, control_receive.c: the encrypted messages of the control channel.
pub mod State
pub mod Receive
pub mod Incoming
pub mod Delivery
pub mod Desync
