-- ===== src/Transport/State.antt =====
-- src/session/session_pri.h (the fields of `transport`), src/session/shutdown.c
-- (IHS_SessionTransportState). `sent` is what the code hands to the packet sender, to the control
-- channel, to the data channels or to the application, the latest first. The clock's echo watermark
-- is part of the record, since the lifecycle writes it.
use ihslib.Common.{false, true, ℕ, Bool, List, ◌∷◌, ◌==◌, if◌then◌else◌}

-- `IHS_SessionConnectionState`.
pub data Phase : Type 0 where
  unconnected : Phase
  connecting : Phase
  handshaking : Phase
  authenticating : Phase
  negotiating : Phase
  starting : Phase
  connected : Phase
  stopping : Phase

pub data TransportState : Type 0 where
  transport_connecting : TransportState
  transport_connected : TransportState
  transport_closing : TransportState
  transport_closed : TransportState

-- The channel that a data-lost message goes to.
pub data LostChannel : Type 0 where
  audio : LostChannel
  video : LostChannel
  discovery : LostChannel

pub data Output : Type 0 where
  connect_packet : ℕ → Output
  disconnect_packet : ℕ → ℕ → Output
  pause_message : Output
  resume_message : Output
  data_lost : LostChannel → Output
  network_test_closed : Output
  disconnected_callback : Output

pub record Transport : Type 0 where
  pub update_time : ℕ
  pub last_receive : ℕ
  pub last_connect : ℕ
  pub applied_generation : ℕ
  pub lifecycle_generation : ℕ
  pub shutdown : ℕ
  pub detached : Bool
  pub notified : Bool
  pub address_cleared : Bool
  pub active : Bool
  pub client_paused : Bool
  pub connection_paused : Bool
  pub timed_out : Bool
  pub last_echo : ℕ
  pub have_echo : Bool
  pub phase : Phase
  pub connection_id : ℕ
  pub host_connection_id : ℕ
  pub interrupted : Bool
  pub has_audio : Bool
  pub has_video : Bool
  pub is_network_test : Bool
  pub sent : List Output

-- The phases from the handshake on count as connected.
unfoldable pub phase_state : Phase → TransportState
phase_state unconnected = transport_closed
phase_state connecting = transport_connecting
phase_state handshaking = transport_connected
phase_state authenticating = transport_connected
phase_state negotiating = transport_connected
phase_state starting = transport_connected
phase_state connected = transport_connected
phase_state stopping = transport_connected

-- `IHS_SessionTransportState`.
unfoldable pub transport_state : Transport → TransportState
unfolding phase_state
transport_state s =
    if s.shutdown == 0
    then phase_state s.phase
    else if s.shutdown == 1
    then transport_closing
    else transport_closed

unfoldable pub is_transport_connected : TransportState → Bool
is_transport_connected transport_connecting = false
is_transport_connected transport_connected = true
is_transport_connected transport_closing = false
is_transport_connected transport_closed = false

unfoldable pub is_transport_closed : TransportState → Bool
is_transport_closed transport_connecting = false
is_transport_closed transport_connected = false
is_transport_closed transport_closing = false
is_transport_closed transport_closed = true

-- The test of `IHS_SessionTransportCheckTimeout`: connecting or connected.
unfoldable pub is_transport_live : TransportState → Bool
is_transport_live transport_connecting = true
is_transport_live transport_connected = true
is_transport_live transport_closing = false
is_transport_live transport_closed = false

unfoldable pub is_phase_connected : Phase → Bool
is_phase_connected unconnected = false
is_phase_connected connecting = false
is_phase_connected handshaking = false
is_phase_connected authenticating = false
is_phase_connected negotiating = false
is_phase_connected starting = false
is_phase_connected connected = true
is_phase_connected stopping = false

unfoldable pub is_phase_connecting : Phase → Bool
is_phase_connecting unconnected = false
is_phase_connecting connecting = true
is_phase_connecting handshaking = false
is_phase_connecting authenticating = false
is_phase_connecting negotiating = false
is_phase_connecting starting = false
is_phase_connecting connected = false
is_phase_connecting stopping = false

-- The record with one more output.
unfoldable pub emit : Output → Transport → Transport
emit o s = record s { sent = o ∷ s.sent }
