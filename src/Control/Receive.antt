-- ===== src/Control/Receive.antt =====
-- src/session/channels/ch_control.c, control_receive.c: a message's body is encrypted and decrypted
-- under the channel's two sequence numbers, and what is received goes to the worker's queue or at once
-- to its handler. `respond` is what that handler does to the channel and its session, `unpack_bitrate`
-- the generated decoder of a bitrate message, `allocated` whether memory is given. The buffers' room
-- and the cipher are those of Crypto.
use ihslib.Common.{
  ℕ, zero, suc, ◌+◌, ◌*◌, ◌/◌, ◌%◌, ◌^◌, Bool, true, false, not, ◌&&◌, ◌||◌, Option, none, some,
  List, [], ◌∷◌, ◌++◌, length, leb, ◌==◌, if◌then◌else◌, add32, sub32, add64,
}
use ihslib.Buffer.Defs.{◌>>=◌}
use ihslib.Packet.Header.{Header}
use ihslib.Transport.State.{
  Transport, Phase, unconnected, connecting, handshaking, authenticating, negotiating, starting,
  connected, stopping,
}
use ihslib.Crypto.Library.{Library}
use ihslib.Crypto.Frame.{
  DecryptResult, decrypt_ok, old_sequence, sequence_mismatch, hash_mismatch, decrypt_failed,
  encrypt_frame, decrypt_frame,
}
use ihslib.Control.State.{
  Message, message_received, test_target, disconnect_requested, Control, note,
  type_authentication_request, type_authentication_response, type_negotiation_init,
  type_negotiation_set_config, type_client_handshake, type_server_handshake, type_keep_alive,
  type_set_target_bitrate, type_remote_hid,
}

-- `IsMessageEncrypted`.
unfoldable pub is_message_encrypted : ℕ → Bool
is_message_encrypted type = not (
    type == type_client_handshake
    || (type == type_server_handshake
        || (type == type_authentication_request || type == type_authentication_response)))

-- `EncryptedMessageCapacity`.
unfoldable pub encrypted_message_capacity : ℕ → ℕ
encrypted_message_capacity plain_size = 16 + ((plain_size + 8) / 16 + 1) * 16

-- `CanDispatch`.
unfoldable pub can_dispatch : Phase → ℕ → Bool
can_dispatch unconnected type = leb 50 type && leb type 147
can_dispatch connecting type = leb 50 type && leb type 147
can_dispatch handshaking type = type == type_server_handshake
can_dispatch authenticating type = type == type_authentication_response
can_dispatch negotiating type = type == type_negotiation_init || type == type_negotiation_set_config
can_dispatch starting type = leb 50 type && leb type 147
can_dispatch connected type = leb 50 type && leb type 147
can_dispatch stopping type = leb 50 type && leb type 147

-- What the drain asks before it hands a message to its handler.
unfoldable pub is_wanted : Transport → ℕ → Bool
unfolding can_dispatch
is_wanted t type = not t.interrupted && (not t.detached && can_dispatch t.phase type)

unfoldable pub is_over : Phase → Bool
is_over unconnected = true
is_over connecting = false
is_over handshaking = false
is_over authenticating = false
is_over negotiating = false
is_over starting = false
is_over connected = false
is_over stopping = true

-- The guard of `IHS_SessionChannelControlReceiveFrame`.
unfoldable pub is_gone : Control → Bool
unfolding is_over
is_gone s = is_over s.session.phase || (s.session.interrupted || s.session.detached)

unfoldable pub is_accepted : DecryptResult → Bool
is_accepted decrypt_ok = true
is_accepted old_sequence = false
is_accepted sequence_mismatch = false
is_accepted hash_mismatch = false
is_accepted decrypt_failed = false

-- The type and the rest of a body; a body without a byte has the type 0.
unfoldable pub body_type : List ℕ → ℕ
body_type [] = 0
body_type (type ∷ rest) = type

unfoldable pub body_rest : List ℕ → List ℕ
body_rest [] = []
body_rest (type ∷ rest) = rest

-- The message goes behind the others.
unfoldable pub enqueue : Message → Control → Control
enqueue m s = record s {
  incoming = s.incoming ++ (m ∷ []);
  incoming_count = add32 s.incoming_count 1;
}

-- `recvEncryptSequence++`.
unfoldable pub count_received : Control → Control
count_received s = record s { recv_sequence = add64 s.recv_sequence 1 }

-- `sendEncryptSequence++`.
unfoldable pub count_sent : Control → Control
count_sent s = record s { send_sequence = add64 s.send_sequence 1 }

-- `IHS_SessionChannelControlClearIncoming`, with `Pop` by the list's cases; without a lock the channel
-- never had a queue. `fuel` bounds the rounds.
unfoldable pub clear_loop : ℕ → Control → Control
clear_loop zero s = s
clear_loop (suc fuel) s = elim s.incoming [
  | [] ↦ s
  | (m ∷ rest) ↦
      clear_loop fuel (record s { incoming = rest; incoming_count = sub32 s.incoming_count 1 })
]

unfoldable pub clear_incoming : Bool → ℕ → Control → Control
unfolding clear_loop
clear_incoming has_lock fuel s = if has_lock then clear_loop fuel s else s

module _ (respond : Message → Control → Control) where
  -- `IHS_SessionChannelControlOnMessageReceived`.
  unfoldable pub dispatch : Message → Control → Control
  unfolding note
  dispatch m s = respond m (note (message_received m) s)

  -- `IHS_SessionChannelControlDrainIncoming`, with `Pop` by the list's cases; `fuel` bounds the rounds.
  unfoldable pub drain : ℕ → Control → Control
  drain zero s = s
  drain (suc fuel) s = elim s.incoming [
    | [] ↦ s
    | (m ∷ rest) ↦
        let popped = record s { incoming = rest; incoming_count = sub32 s.incoming_count 1 } in
        drain fuel (if is_wanted s.session m.type then dispatch m popped else popped)
  ]

  module _ (unpack_bitrate : List ℕ → Option ℕ) (allocated : Bool) where
    -- The part of `IHS_SessionChannelControlHandoff` for a network test.
    unfoldable pub handoff_test : Message → Control → Control
    unfolding dispatch note
    handoff_test m s =
        let is_handshake = s.test_phase == 2 && m.type == type_server_handshake in
        let is_authentication = s.test_phase == 3 && m.type == type_authentication_response in
        let handled = dispatch m s in
        let targeted : Control = elim (unpack_bitrate m.body) [
          | none ↦ s
          | some bitrate ↦ note (test_target (bitrate % 2 ^ 32)) s
        ] in
        if is_handshake || is_authentication
        then handled
        else if not (s.test_phase == 2)
            && (not (s.test_phase == 3) && m.type == type_set_target_bitrate)
        then targeted
        else s

    -- `IHS_SessionChannelControlHandoff`.
    unfoldable pub handoff : Message → Control → Control
    unfolding handoff_test dispatch enqueue note
    handoff m s =
        if s.is_test
        then handoff_test m s
        else if m.type == type_keep_alive
        then s
        else if m.type == type_remote_hid
        then dispatch m s
        else if allocated
        then enqueue m s
        else note disconnect_requested s

    module _ (lib : Library) (key : List ℕ) where
      -- An encrypted message: the number counts before the decryption. The buffer for the plain bytes
      -- holds a mebibyte at most.
      unfoldable pub receive_encrypted : Header → ℕ → List ℕ → Control → Option Control
      receive_encrypted header type cipher s =
          decrypt_frame lib key (1024 * 1024) cipher s.recv_sequence >>= λ d.
          let handed =
            handoff (record { type = type; body = d.out; header = header }) (count_received s) in
          some (if is_accepted d.result then handed else count_received s)

      -- `IHS_SessionChannelControlReceiveFrame`. None for a failed assertion of the buffer.
      unfoldable pub receive_frame : Header → List ℕ → Control → Option Control
      receive_frame header body s =
          let type = body_type body in
          let plain = handoff (record { type = type; body = body_rest body; header = header }) s in
          let opened = receive_encrypted header type (body_rest body) s in
          if is_gone s then some s else if is_message_encrypted type then opened else some plain

-- The body that `ControlSendLocked` puts into its frame for a message that is packed to `bytes`, or
-- none where it gives up, and the channel.
unfoldable pub send_body :
    Library → List ℕ → Bool → ℕ → List ℕ → Control → Option (List ℕ) × Control
unfolding is_message_encrypted encrypted_message_capacity count_sent
send_body lib key allocated type bytes s =
    let capacity = encrypted_message_capacity (length bytes) in
    let sealed =
      encrypt_frame lib key capacity bytes s.send_sequence >>= λ c. some (type % 256 ∷ c) in
    if is_message_encrypted type
    then if allocated then (sealed, count_sent s) else (none, s)
    else (some (type % 256 ∷ bytes), s)
