-- ===== src/Control/Delivery.antt =====
-- src/session/channels/ch_control.c, control_receive.c: what one side sends in a row and the other
-- receives in that order is handed on as if there were no encryption.
use ihslib.Common.{
  ℕ, ◌+◌, ◌*◌, ◌%◌, ◌^◌, ◌≤◌, ◌<◌, ◌≡◌, inl, inr, refl, ◌∙◌, sym, Bool, true, false, Option, some,
  none, List, [], ◌∷◌, length, if◌then◌else◌, ==_self, arith, Bool-cases, All,
}
use ihslib.Buffer.Defs.{◌>>=◌}
use ihslib.Packet.Header.{Header}
use ihslib.Crypto.Library.{Library, IsLawful}
use ihslib.Crypto.Cbc.{write_length}
use ihslib.Crypto.Frame.{encrypt_frame, decrypt_frame, compare_sequence}
use ihslib.Crypto.Sequence.{encrypt_frame_lem}
use ihslib.Control.State.{message_received, test_target, Event, Message, Control, note}
use ihslib.Control.Receive.{
  is_message_encrypted, encrypted_message_capacity, is_gone, is_accepted, body_type, body_rest,
  enqueue, count_received, count_sent, dispatch, handoff_test, handoff, receive_encrypted,
  receive_frame, send_body,
}

-- A handler that leaves the number of the next message as it is, and the channel in use.
pub record IsQuiet (respond : Message → Control → Control) : Type 0 where
  pub counted : (m : Message) (r : Control) → (respond m r).recv_sequence ≡ r.recv_sequence
  pub alive : (m : Message) (r : Control) → is_gone r ≡ false → is_gone (respond m r) ≡ false

-- A message whose type is a byte, and whose ciphertext fits the receiver's buffer.
pub record IsSendable (m : Message) : Type 0 where
  pub byte : m.type < 256
  pub fits : 16 + write_length (8 + length m.body) ≤ 1024 * 1024

abbrev pub count_sealed : ℕ → Control → Control
count_sealed type s = if is_message_encrypted type then count_sent s else s

abbrev pub count_opened : ℕ → Control → Control
count_opened type r = if is_message_encrypted type then count_received r else r

if_keeps : {A : Type 0} (P : A → Type 0) (b : Bool) {x y : A} → P x → P y → P (if b then x else y)
if_keeps P true p q = p
if_keeps P false p q = q

target_keeps :
    (P : Control → Type 0) (o : Option ℕ) (r : Control)
    → P r
    → ((e : Event) → P (note e r))
    → P (elim o [ none ↦ r | some bitrate ↦ note (test_target (bitrate % 2 ^ 32)) r ])
target_keeps P none r h more = h
target_keeps P (some bitrate) r h more = more (test_target (bitrate % 2 ^ 32))

module _ (respond : Message → Control → Control) (unpack_bitrate : List ℕ → Option ℕ) where
  -- What a handler, a note and the queue keep, the handoff keeps.
  pub handoff_keeps :
      (P : Control → Type 0)
      → ((m : Message) (r : Control) → P r → P (dispatch respond m r))
      → ((e : Event) (r : Control) → P r → P (note e r))
      → ((m : Message) (r : Control) → P r → P (enqueue m r))
      → (m : Message) (r : Control) → P r
      → P (handoff respond unpack_bitrate true m r)
  unfolding handoff handoff_test
  handoff_keeps P at_dispatch at_note at_queue m r h =
      let handled = at_dispatch m r h in
      let targeted = target_keeps P (unpack_bitrate m.body) r h (λ e. at_note e r h) in
      if_keeps P r.is_test (if_keeps P _ handled (if_keeps P _ targeted h))
        (if_keeps P _ h (if_keeps P _ handled (at_queue m r h)))

count_bound :
    (type : ℕ) (s : Control)
    → s.send_sequence < 2 ^ 64
    → (count_sealed type s).send_sequence < 2 ^ 64
unfolding count_sent
count_bound type s h = ground (arith, h)

counts_lem :
    (type : ℕ) (s r : Control)
    → s.send_sequence ≡ r.recv_sequence
    → (count_sealed type s).send_sequence ≡ (count_opened type r).recv_sequence
unfolding count_sent count_received
counts_lem type s r h = ground (arith, h)

opened_alive : (type : ℕ) (r : Control) → is_gone r ≡ false → is_gone (count_opened type r) ≡ false
unfolding count_received is_gone
opened_alive type r h = if_keeps (λ t. is_gone t ≡ false) (is_message_encrypted type) h h

module _ (lib : Library) (key : List ℕ) where
  -- Messages are sent one after the other.
  abbrev pub send_all : List Message → Control → Option (List (Header × List ℕ))
  send_all [] s = some []
  send_all (m ∷ ms) s =
      let (sent, t) = send_body lib key true m.type m.body s in
      sent >>= λ body. send_all ms t >>= λ more. some ((m.header, body) ∷ more)

  module _ (respond : Message → Control → Control) (unpack_bitrate : List ℕ → Option ℕ) where
    -- Bodies are received one after the other.
    abbrev pub receive_all : List (Header × List ℕ) → Control → Option Control
    receive_all [] r = some r
    receive_all ((header, body) ∷ more) r =
        receive_frame respond unpack_bitrate true lib key header body r >>= λ t. receive_all more t

-- Messages are handed on one after the other, each counted where it is of an encrypted type.
abbrev pub deliver_all :
    (Message → Control → Control) → (List ℕ → Option ℕ) → List Message → Control → Control
deliver_all respond unpack_bitrate [] r = r
deliver_all respond unpack_bitrate (m ∷ ms) r =
    deliver_all respond unpack_bitrate ms
      (handoff respond unpack_bitrate true m (count_opened m.type r))

module _ (lib : Library) (key : List ℕ) (lawful : IsLawful lib key) where
  -- What is encrypted for a message, and how it decrypts.
  sealed_lem :
      (m : Message) (sequence : ℕ)
      → IsSendable m
      → sequence < 2 ^ 64
      → (c : List ℕ) × (encrypt_frame lib key
            (encrypted_message_capacity (length m.body))
            m.body
            sequence
          ≡ some c)
        × ((expected : ℕ)
            → decrypt_frame lib key (1024 * 1024) c expected
              ≡ some (record {
                result = compare_sequence sequence expected;
                out = m.body;
                sequence = some sequence;
              }))
  unfolding encrypted_message_capacity write_length
  sealed_lem m sequence ok h =
      let (c, enc, size, dec) =
        encrypt_frame_lem lib key lawful m.body sequence
          (encrypted_message_capacity (length m.body)) h (omega arith) (omega (arith, ok.fits)) in
      (c, enc, λ expected. dec (1024 * 1024) expected (omega (arith, size, ok.fits)))

  -- What a sent body holds behind its type byte.
  pub record Sent (m : Message) (s : Control) : Type 0 where
    pub rest : List ℕ
    pub sent :
        send_body lib key true m.type m.body s ≡ (some (m.type ∷ rest), count_sealed m.type s)
    pub plain : is_message_encrypted m.type ≡ false → rest ≡ m.body
    pub opens :
        is_message_encrypted m.type ≡ true
        → (expected : ℕ)
        → decrypt_frame lib key (1024 * 1024) rest expected
          ≡ some (record {
            result = compare_sequence s.send_sequence expected;
            out = m.body;
            sequence = some s.send_sequence;
          })

  pub send : (m : Message) (s : Control) → IsSendable m → s.send_sequence < 2 ^ 64 → Sent m s
  unfolding send_body
  send m s ok h =
      let byte : m.type % 256 ≡ m.type = omega (arith, ok.byte) in
      elim (Bool-cases (is_message_encrypted m.type)) [
        | inl encrypted ↦
            let (c, enc, dec) = sealed_lem m s.send_sequence ok h in
            record {
              rest = c;
              sent = rw (encrypted, enc, byte) refl;
              plain = λ bare. absurd (ground (arith, encrypted, bare));
              opens = λ e. dec;
            }
        | inr bare ↦ record {
          rest = m.body;
          sent = rw (bare, byte) refl;
          plain = λ e. refl;
          opens = λ e. absurd (ground (arith, e, bare));
        }
      ]

  module _ (respond : Message → Control → Control) (unpack_bitrate : List ℕ → Option ℕ) where
    -- A body that comes in its turn is handed on.
    receive_next :
        (m : Message) (s r : Control) (x : Sent m s)
        → is_gone r ≡ false
        → s.send_sequence ≡ r.recv_sequence
        → receive_frame respond unpack_bitrate true lib key m.header (m.type ∷ x.rest) r
          ≡ some (handoff respond unpack_bitrate true m (count_opened m.type r))
    unfolding receive_frame receive_encrypted body_type body_rest compare_sequence is_accepted
    receive_next m s r x alive same = elim (Bool-cases (is_message_encrypted m.type)) [
      | inl encrypted ↦
          rw (alive, encrypted, x.opens encrypted r.recv_sequence, same, ==_self r.recv_sequence)
            refl
      | inr bare ↦ rw (alive, bare, x.plain bare) refl
    ]

    module _ (quiet : IsQuiet respond) where
      counted_next :
          (m : Message) (r : Control)
          → (handoff respond unpack_bitrate true m r).recv_sequence ≡ r.recv_sequence
      unfolding note dispatch enqueue
      counted_next m r =
          handoff_keeps respond unpack_bitrate (λ t. t.recv_sequence ≡ r.recv_sequence)
            (λ n t h. quiet.counted n (note (message_received n) t) ∙ h) (λ e t h. h) (λ n t h. h) m
            r refl

      alive_next :
          (m : Message) (r : Control)
          → is_gone r ≡ false
          → is_gone (handoff respond unpack_bitrate true m r) ≡ false
      unfolding note dispatch enqueue is_gone
      alive_next m r h =
          handoff_keeps respond unpack_bitrate (λ t. is_gone t ≡ false)
            (λ n t h. quiet.alive n (note (message_received n) t) h) (λ e t h. h) (λ n t h. h) m r h

      -- Under a lawful library and where memory is given, sendable messages that are sent in a row
      -- reach a channel in use, whose number is the sender's, as if each were handed on
      -- unencrypted, where the handlers leave the number and the use as they are.
      pub receive_all-send_all :
          (ms : List Message) (s r : Control)
          → All IsSendable ms
          → is_gone r ≡ false
          → s.send_sequence ≡ r.recv_sequence
          → s.send_sequence < 2 ^ 64
          → (bodies : List (Header × List ℕ)) × (send_all lib key ms s ≡ some bodies)
            × (receive_all lib key respond unpack_bitrate bodies r
                ≡ some (deliver_all respond unpack_bitrate ms r))
      receive_all-send_all [] s r ok alive same h = ([], refl, refl)
      receive_all-send_all (m ∷ ms) s r ok alive same h =
          let x = send m s ok.0 h in
          let t = handoff respond unpack_bitrate true m (count_opened m.type r) in
          let (bodies, sent, received) =
            receive_all-send_all ms (count_sealed m.type s) t ok.1
              (alive_next m (count_opened m.type r) (opened_alive m.type r alive))
              (counts_lem m.type s r same ∙ sym (counted_next m (count_opened m.type r)))
              (count_bound m.type s h) in
          (
            (m.header, m.type ∷ x.rest) ∷ bodies,
            rw (x.sent, sent) refl,
            rw (receive_next m s r x alive same) received,
          )
