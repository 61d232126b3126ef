-- ===== src/Retransmission/State.antt =====
-- src/session/retransmission.c, retransmission.h: the state and the operations that registration,
-- acknowledgement and loss reports run. `pending` is the linked list from `head` on, the newest
-- registration first. An object that an operation unlinks moves to `retired`, with `tracked`
-- cleared: a scan that still holds a reference goes on reading it there. `address` stands for the
-- object's pointer. Locks are left out: an operation runs under `lock` from end to end.
use ihslib.Common.{
  ℕ, ◌+◌, ◌-◌, ◌^◌, Bool, true, false, not, ◌&&◌, ◌||◌, Option, none, some, List, [], ◌∷◌, map, ltb,
  ◌==◌, if◌then◌else◌, sub16, add32, sub32, add64, sub64,
}
use ihslib.Packet.Header.{Header, Packet, int16_min}

-- `struct IHS_RetransmissionPending`.
pub record Pending : Type 0 where
  pub address : ℕ
  pub packet : Packet
  pub first_tracked_ms : ℕ
  pub last_send_ms : ℕ
  pub last_send_timestamp : ℕ
  pub next_retry_ms : ℕ
  pub retry_count : ℕ
  pub initial_sent : Bool
  pub ready : Bool
  pub nack_pending : Bool
  pub tracked : Bool
  pub next_wire_count : ℕ
  pub feedback_generation : ℕ

-- The counters of `IHS_RetransmissionStats` that the operations keep.
pub record Stats : Type 0 where
  pub tracked : ℕ
  pub acknowledged : ℕ
  pub nacks : ℕ
  pub retries : ℕ
  pub send_failures : ℕ
  pub outstanding : ℕ
  pub max_ack_latency_ms : ℕ
  pub hid_acknowledged : ℕ

pub record Retransmission : Type 0 where
  pub pending : List Pending
  pub retired : List Pending
  pub next_address : ℕ
  pub stats : Stats

-- `PacketIdentityMatches`.
unfoldable pub identity_matches : Header → ℕ → ℕ → ℕ → Bool
identity_matches h channel_id packet_id fragment_id =
    h.channel_id == channel_id
    && (h.packet_id == packet_id && (fragment_id == int16_min || h.fragment_id == fragment_id))

unfoldable pub matches : ℕ → ℕ → ℕ → Pending → Bool
unfolding identity_matches
matches channel_id packet_id fragment_id p =
    identity_matches p.packet.header channel_id packet_id fragment_id

-- The loop over the list that stops at the first match.
unfoldable pub find : (Pending → Bool) → List Pending → Option Pending
find t [] = none
find t (p ∷ ps) = if t p then some p else find t ps

-- Unlinks the first match.
unfoldable pub unlink : (Pending → Bool) → List Pending → List Pending
unlink t [] = []
unlink t (p ∷ ps) = if t p then ps else p ∷ unlink t ps

-- Changes the first match in place.
unfoldable pub change : (Pending → Bool) → (Pending → Pending) → List Pending → List Pending
change t f [] = []
change t f (p ∷ ps) = if t p then f p ∷ ps else p ∷ change t f ps

-- `IHS_RetransmissionIsTracked`.
unfoldable pub is_tracked : Retransmission → ℕ → ℕ → ℕ → Bool
is_tracked r channel_id packet_id fragment_id =
    elim (find (matches channel_id packet_id fragment_id) r.pending) [
      | none ↦ false
      | some p ↦ true
    ]

abbrev pub uint64_max : ℕ
uint64_max = 2 ^ 64 - 1

-- The object that `IHS_RetransmissionTrack` makes before it takes the lock.
unfoldable pub new_pending : Packet → ℕ → ℕ → Pending
new_pending packet now address = record {
  address = address;
  packet = packet;
  first_tracked_ms = now;
  last_send_ms = 0;
  last_send_timestamp = 0;
  next_retry_ms = uint64_max;
  retry_count = 0;
  initial_sent = false;
  ready = false;
  nack_pending = false;
  tracked = true;
  next_wire_count = packet.header.retransmit_count;
  feedback_generation = 0;
}

-- `IHS_RetransmissionTrack`; `allocated` is whether `calloc` gave the object. The assertions on the
-- packet's buffer are on a pointer and an offset that a packet of the list does not have.
unfoldable pub track : Bool → Retransmission → Packet → ℕ → Retransmission × Bool
unfolding new_pending
track allocated r packet now =
    if not allocated
    then (r, false)
    else if is_tracked r h.channel_id h.packet_id h.fragment_id
    then (r, false)
    else (
      record r {
        pending = new_pending packet now r.next_address ∷ r.pending;
        next_address = r.next_address + 1;
        stats = record s { tracked = add64 s.tracked 1; outstanding = add32 s.outstanding 1 };
      },
      true,
    )
  where
    h : Header
    h = packet.header

    s : Stats
    s = r.stats

-- `IHS_RetransmissionActivate`.
unfoldable pub activate : Retransmission → ℕ → ℕ → ℕ → Retransmission
activate r channel first_id count = record r { pending = map admit r.pending }
  where
    admit : Pending → Pending
    admit p =
        if p.packet.header.channel_id == channel
          && ltb (sub16 p.packet.header.packet_id first_id) count
        then record p { ready = true }
        else p

unfoldable pub retire : Pending → Pending
retire p = record p { tracked = false }

-- A staged packet that was neither admitted nor sent, of the given identity.
unfoldable pub cancellable : Header → Pending → Bool
unfolding matches
cancellable h p =
    not p.ready && (not p.initial_sent && matches h.channel_id h.packet_id h.fragment_id p)

-- `IHS_RetransmissionCancelUnsent`.
unfoldable pub cancel_unsent : Retransmission → Header → Retransmission
unfolding cancellable retire
cancel_unsent r h = elim (find (cancellable h) r.pending) [
  | none ↦ r
  | some p ↦ record r {
    pending = unlink (cancellable h) r.pending;
    retired = retire p ∷ r.retired;
    stats = record s { tracked = sub64 s.tracked 1; outstanding = sub32 s.outstanding 1 };
  }
]
  where
    s : Stats
    s = r.stats
