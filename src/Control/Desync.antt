-- ===== src/Control/Desync.antt =====
-- src/session/channels/ch_control.c: encrypted messages whose numbers are not the ones expected are not
-- handed on.
use ihslib.Common.{
  ℕ, ◌^◌, ◌<◌, ◌≡◌, ◌≢◌, inl, inr, refl, true, false, Option, some, List, [], ◌∷◌, ◌==◌, ==_iff,
  arith, Bool-cases, All, add64,
}
use ihslib.Packet.Header.{Header}
use ihslib.Crypto.Library.{Library, IsLawful}
use ihslib.Crypto.Frame.{compare_sequence}
use ihslib.Control.State.{Message, Control}
use ihslib.Control.Receive.{
  is_message_encrypted, is_gone, is_accepted, body_type, body_rest, count_received, count_sent,
  receive_encrypted, receive_frame,
}
use ihslib.Control.Delivery.{IsSendable, Sent, send, send_all, receive_all}

-- A receiver that has counted each of some messages and done nothing else.
abbrev pub count_each : List Message → Control → Control
count_each [] r = r
count_each (m ∷ ms) r = count_each ms (count_received r)

-- The numbers of both sides stay apart.
apart_lem : (a b : ℕ) → a < 2 ^ 64 → b < 2 ^ 64 → a ≢ b → add64 a 1 ≢ add64 b 1
apart_lem a b h k ne e = ne (omega (arith, h, k, e))

not_accepted : (a b : ℕ) → a ≢ b → is_accepted (compare_sequence a b) ≡ false
unfolding compare_sequence is_accepted
not_accepted a b ne = elim (Bool-cases (a == b)) [
  | inl same ↦ absurd (ne ((==_iff a b).0 same))
  | inr other ↦ ground (arith, other)
]

module _ (lib : Library) (key : List ℕ) (lawful : IsLawful lib key)
    (respond : Message → Control → Control) (unpack_bitrate : List ℕ → Option ℕ) where
  receive_other :
      (m : Message) (s r : Control) (x : Sent lib key lawful m s)
      → is_message_encrypted m.type ≡ true
      → is_gone r ≡ false
      → s.send_sequence ≢ r.recv_sequence
      → receive_frame respond unpack_bitrate true lib key m.header (m.type ∷ x.rest) r
        ≡ some (count_received r)
  unfolding receive_frame receive_encrypted body_type body_rest
  receive_other m s r x encrypted alive ne =
      rw
        (
          alive,
          encrypted,
          x.opens encrypted r.recv_sequence,
          not_accepted s.send_sequence r.recv_sequence ne,
        )
        refl

  -- Under a lawful library and on a channel in use, once the sender's and the receiver's numbers
  -- differ, of the sendable encrypted messages that are then sent in a row none is handed on: each
  -- counts, and nothing else of the channel changes.
  pub receive_all-count_each :
      (ms : List Message) (s r : Control)
      → All IsSendable ms
      → All (λ m. is_message_encrypted m.type ≡ true) ms
      → is_gone r ≡ false
      → s.send_sequence < 2 ^ 64
      → r.recv_sequence < 2 ^ 64
      → s.send_sequence ≢ r.recv_sequence
      → (bodies : List (Header × List ℕ)) × (send_all lib key ms s ≡ some bodies)
        × (receive_all lib key respond unpack_bitrate bodies r ≡ some (count_each ms r))
  unfolding count_sent count_received is_gone
  receive_all-count_each [] s r ok enc alive h k ne = ([], refl, refl)
  receive_all-count_each (m ∷ ms) s r ok enc alive h k ne =
      let x = send lib key lawful m s ok.0 h in
      let (bodies, sent, received) =
        receive_all-count_each ms (count_sent s) (count_received r) ok.1 enc.1 alive (omega arith)
          (omega arith) (apart_lem s.send_sequence r.recv_sequence h k ne) in
      (
        (m.header, m.type ∷ x.rest) ∷ bodies,
        rw (x.sent, enc.0, sent) refl,
        rw (receive_other m s r x enc.0 alive ne) received,
      )
