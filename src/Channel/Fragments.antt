-- ===== src/Channel/Fragments.antt =====
-- src/session/channels/channel.c: SessionChannelQueueFramePackets. A packet is its header and its
-- payload. `answer` is what IHS_SessionQueuePacketResult says of the packets in turn, `next` the
-- channel's next packet ID for the frame's type.
use ihslib.Common.{
  ℕ, zero, suc, ◌+◌, ◌-◌, ◌/◌, Bool, true, false, Option, none, some, List, [], ◌∷◌, length, take,
  drop, ◌==◌, if◌then◌else◌, add16,
}
use ihslib.Buffer.Defs.{◌>>=◌}
use ihslib.Packet.Header.{
  Header, type_reliable, type_reliable_frag, type_unreliable, type_unreliable_frag,
}

-- `IHS_SendAdmission`.
pub data Admission : Type 0 where
  admission_accepted : Admission
  admission_too_large : Admission
  admission_not_connected : Admission
  admission_local_failure : Admission

unfoldable pub is_admitted : Admission → Bool
is_admitted admission_accepted = true
is_admitted admission_too_large = false
is_admitted admission_not_connected = false
is_admitted admission_local_failure = false

-- `FragmentedPacketType`: none where it aborts.
unfoldable pub fragmented_type : ℕ → Option ℕ
fragmented_type type =
    if type == type_unreliable
    then some type_unreliable_frag
    else if type == type_reliable
    then some type_reliable_frag
    else none

-- `packetCount`.
unfoldable pub fragments_count : ℕ → ℕ → ℕ
fragments_count limit size = (size + limit - 1) / limit

-- What the loop leaves: its result, the packets that were queued, and the next ID.
pub record Fragmented : Type 0 where
  pub admission : Admission
  pub packets : List (Header × List ℕ)
  pub next : ℕ

module _ (limit count : ℕ) (h : Header) (answer : ℕ → Admission) where
  -- The header of the `i`th packet. The head tells how many packets follow it, and has the frame's ID.
  unfoldable pub fragment_header : ℕ → ℕ → ℕ → Header
  fragment_header i type next =
      if i == 0
      then record h { fragment_id = count - 1 }
      else record h { packet_id = next; fragment_id = i - 1; type = type }

  -- The loop, from the `i`th packet on; `fuel` bounds the rounds.
  unfoldable pub queue_fragments : ℕ → ℕ → List ℕ → ℕ → Option Fragmented
  queue_fragments zero i body next =
      some (record { admission = admission_accepted; packets = []; next = next })
  queue_fragments (suc fuel) i body next =
      let type = if i == 0 then some h.type else fragmented_type h.type in
      let used = if i == 0 then next else add16 next 1 in
      let rest = queue_fragments fuel (suc i) (drop limit body) used in
      let done : Fragmented = record {
        admission = admission_accepted;
        packets = [];
        next = next;
      } in
      let refused : Fragmented = record { admission = answer i; packets = []; next = used } in
      let admitted = λ (t : ℕ). rest >>= λ q.
      some (record q { packets = (fragment_header i t next, take limit body) ∷ q.packets }) in
      let sent = type >>= λ t. if is_admitted (answer i) then admitted t else some refused in
      if length body == 0 then some done else sent
