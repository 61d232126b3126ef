-- ===== src/Tests/Control.antt =====
-- src/session/channels/ch_control.c, control_receive.c: three messages, one of them not encrypted, and
-- handlers that do nothing.
use ihslib.Common.{
  ℕ, ◌≡◌, refl, true, false, Option, some, none, List, [], ◌∷◌, ◌==◌, if◌then◌else◌, arith,
}
use ihslib.Packet.Header.{Header}
use ihslib.Crypto.Cbc.{write_length}
use ihslib.Control.State.{Message, Control, message_received}
use ihslib.Control.Receive.{is_gone, is_wanted, is_message_encrypted, dispatch, drain}
use ihslib.Control.Delivery.{
  IsQuiet, IsSendable, send_all, receive_all, deliver_all, receive_all-send_all,
}
use ihslib.Control.Desync.{count_each, receive_all-count_each}
use ihslib.Control.Incoming.{LeavesQueue, Drained, drain-Drained}
use ihslib.Transport.State.{handshaking, authenticating}
use ihslib.Tests.Crypto.{plain_library, plain_library-IsLawful}
use ihslib.Tests.Transport.{streaming}

abbrev reliable_header : Header
reliable_header = record {
  has_crc = false;
  type = 5;
  retransmit_count = 0;
  src_connection_id = 1;
  dst_connection_id = 2;
  channel_id = 1;
  fragment_id = 0;
  packet_id = 7;
  send_timestamp = 0;
  auto_packet_id = false;
  hid_report = false;
  receive_timestamp = 0;
  receive_begin = 0;
}

abbrev cursor_message : Message
cursor_message = record { type = 60; body = 1 ∷ 2 ∷ []; header = reliable_header }

abbrev handshake_message : Message
handshake_message = record { type = 7; body = 3 ∷ []; header = reliable_header }

abbrev response_message : Message
response_message = record { type = 2; body = 5 ∷ []; header = reliable_header }

abbrev idle_control : Control
idle_control = record {
  session = streaming;
  is_test = false;
  test_phase = 0;
  send_sequence = 4;
  recv_sequence = 4;
  incoming = [];
  incoming_count = 0;
  events = [];
}

abbrev later_control : Control
later_control = record idle_control { recv_sequence = 5 }

-- A channel in the handshake, with two handshakes and a response of the authentication.
abbrev waiting_control : Control
waiting_control = record idle_control {
  session = record streaming { phase = handshaking };
  incoming = handshake_message ∷ handshake_message ∷ response_message ∷ [];
  incoming_count = 3;
}

-- A handler of the handshake brings the session to the authentication, and no other does anything.
abbrev to_authentication : Message → Control → Control
to_authentication m s =
    if m.type == 7 then record s { session = record s.session { phase = authenticating } } else s

to_authentication-LeavesQueue : LeavesQueue to_authentication
to_authentication-LeavesQueue = record {
  incoming_kept = λ m s. ground arith;
  count_kept = λ m s. ground arith;
}

abbrev no_response : Message → Control → Control
no_response m s = s

abbrev no_bitrate : List ℕ → Option ℕ
no_bitrate bytes = none

no_response-IsQuiet : IsQuiet no_response
no_response-IsQuiet = record { counted = λ m r. refl; alive = λ m r h. h }

cursor-IsSendable : IsSendable cursor_message
unfolding write_length
cursor-IsSendable = record { byte = omega arith; fits = omega arith }

handshake-IsSendable : IsSendable handshake_message
unfolding write_length
handshake-IsSendable = record { byte = omega arith; fits = omega arith }

idle_alive : is_gone idle_control ≡ false
unfolding is_gone
idle_alive = refl

later_alive : is_gone later_control ≡ false
unfolding is_gone
later_alive = refl

cursor_encrypted : is_message_encrypted 60 ≡ true
unfolding is_message_encrypted
cursor_encrypted = refl

receive_all-send_all_example :
    (bodies : List (Header × List ℕ)) × (send_all plain_library
        (1 ∷ [])
        (cursor_message ∷ handshake_message ∷ cursor_message ∷ [])
        idle_control
      ≡ some bodies)
    × (receive_all plain_library (1 ∷ []) no_response no_bitrate bodies idle_control
        ≡ some (
            deliver_all no_response no_bitrate
              (cursor_message ∷ handshake_message ∷ cursor_message ∷ [])
              idle_control))
receive_all-send_all_example =
    receive_all-send_all plain_library (1 ∷ []) plain_library-IsLawful no_response no_bitrate
      no_response-IsQuiet (cursor_message ∷ handshake_message ∷ cursor_message ∷ []) idle_control
      idle_control (cursor-IsSendable, (handshake-IsSendable, (cursor-IsSendable, tt))) idle_alive
      refl (omega arith)

-- The second receipt of what was sent under the number 4.
receive_all-count_each_example :
    (bodies : List (Header × List ℕ)) × (send_all plain_library
        (1 ∷ [])
        (cursor_message ∷ [])
        idle_control
      ≡ some bodies)
    × (receive_all plain_library (1 ∷ []) no_response no_bitrate bodies later_control
        ≡ some (count_each (cursor_message ∷ []) later_control))
receive_all-count_each_example =
    receive_all-count_each plain_library (1 ∷ []) plain_library-IsLawful no_response no_bitrate
      (cursor_message ∷ []) idle_control later_control (cursor-IsSendable, tt)
      (cursor_encrypted, tt) later_alive (omega arith) (omega arith) (omega arith)

drain-Drained_example :
    Drained to_authentication to_authentication-LeavesQueue waiting_control
      (drain to_authentication 3 waiting_control)
drain-Drained_example =
    drain-Drained to_authentication to_authentication-LeavesQueue 3 waiting_control (omega arith)
      refl

-- The second handshake comes too late, and the response is taken.
drain_run :
    (drain to_authentication 3 waiting_control).events
    ≡ message_received response_message ∷ message_received handshake_message ∷ []
unfolding drain is_wanted dispatch
drain_run = refl
