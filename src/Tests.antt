-- ===== src/Tests.antt =====
-- Runs of the models on concrete inputs, and the instances of the theorems that take hypotheses.
mod Retransmission
mod Packet
mod Transport
mod Window
mod Queue
mod ConnectionId
mod Video
mod Stats
mod Crypto
mod Control
mod Reliable
mod Outgoing
mod Channel
mod Hid
mod Tracker
