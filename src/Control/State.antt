-- ===== src/Control/State.antt =====
-- src/session/channels/ch_control.h (IHS_SessionChannelControl), with what its functions read of the
-- session. The linked list from `incomingHead` to `incomingTail` is the list `incoming`. `events` is
-- what the code hands on: messages to their handler, a bitrate to the network test, a disconnection to
-- the session; the latest first.
use ihslib.Common.{ℕ, Bool, List, ◌∷◌}
use ihslib.Packet.Header.{Header}
use ihslib.Transport.State.{Transport}

-- `IHS_IncomingControl`, without its link.
pub record Message : Type 0 where
  pub type : ℕ
  pub body : List ℕ
  pub header : Header

pub data Event : Type 0 where
  message_received : Message → Event
  test_target : ℕ → Event
  disconnect_requested : Event

pub record Control : Type 0 where
  pub session : Transport
  pub is_test : Bool
  pub test_phase : ℕ
  pub send_sequence : ℕ
  pub recv_sequence : ℕ
  pub incoming : List Message
  pub incoming_count : ℕ
  pub events : List Event

-- The values of `EStreamControlMessage` that the code names.
abbrev pub type_authentication_request : ℕ
type_authentication_request = 1

abbrev pub type_authentication_response : ℕ
type_authentication_response = 2

abbrev pub type_negotiation_init : ℕ
type_negotiation_init = 3

abbrev pub type_negotiation_set_config : ℕ
type_negotiation_set_config = 4

abbrev pub type_client_handshake : ℕ
type_client_handshake = 6

abbrev pub type_server_handshake : ℕ
type_server_handshake = 7

abbrev pub type_keep_alive : ℕ
type_keep_alive = 9

abbrev pub type_set_target_bitrate : ℕ
type_set_target_bitrate = 94

abbrev pub type_remote_hid : ℕ
type_remote_hid = 106

unfoldable pub note : Event → Control → Control
note e s = record s { events = e ∷ s.events }
