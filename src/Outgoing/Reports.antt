-- ===== src/Outgoing/Reports.antt =====
-- src/session/outgoing.c: a loss report on unreliable packets, and the shaping of the sending rate.
-- `cutoff` is the stream clock's time less its age limit for loss reports.
use ihslib.Common.{
  ℕ, zero, suc, ◌+◌, ◌-◌, ◌*◌, ◌/◌, ◌%◌, ◌^◌, Bool, not, ◌&&◌, none, some, List, [], ◌∷◌, length,
  drop, set, get_or, min, ltb, ◌==◌, if◌then◌else◌, add16, sub16, sub32, is_negative32,
  is_positive16,
}
use ihslib.Packet.Header.{Packet, Header}
use ihslib.Outgoing.Cache.{Cache, room, span, release, get, advance, advance_one}

-- `mark`: a sending time of 0 asks for the packet again.
unfoldable pub is_marked : ℕ → Header → Bool
is_marked cutoff h =
    not (h.retransmit_count == 0)
    && (not (h.send_timestamp == 0) && not (is_negative32 (sub32 cutoff h.send_timestamp)))

unfoldable pub mark : ℕ → ℕ → Cache → Cache
mark cutoff id w = elim (get w id) [
  | none ↦ w
  | some p ↦
      let h = p.header in
      let asked = record p { header = record h { send_timestamp = 0 } } in
      if is_marked cutoff h then record w { slots = set w.slots (id % room w) (some asked) } else w
]

-- The loop that drops empty slots at the head; there are no more rounds than IDs.
unfoldable pub drop_empty : ℕ → Cache → Cache
drop_empty zero w = w
drop_empty (suc n) w = elim (get w w.head) [
  | none ↦ if w.head == w.tail then w else drop_empty n (advance_one w)
  | some p ↦ w
]

-- A set bit: a packet before the cursor is let go.
unfoldable pub confirm_id : ℕ → Cache → Cache
confirm_id id w = elim (get w id) [
  | none ↦ w
  | some p ↦ if is_positive16 (sub16 w.cursor id) then release w id else w
]

unfoldable pub report_bits : ℕ → ℕ → ℕ → ℕ → Cache → Cache
report_bits cutoff zero id bits w = w
report_bits cutoff (suc fuel) id bits w =
    let next = if bits % 2 == 1 then confirm_id id w else mark cutoff id w in
    let rest = report_bits cutoff fuel (add16 id 1) (bits / 2) next in if bits == 0 then w else rest

unfoldable pub report_mask : ℕ → ℕ → List ℕ → Cache → Cache
report_mask cutoff id [] w = w
report_mask cutoff id (bits ∷ mask) w =
    report_mask cutoff (add16 id 8) mask (report_bits cutoff 8 id bits w)

-- What is confirmed by the contiguous ID goes, and then what is empty behind it.
unfoldable pub confirm_through : ℕ → Cache → Cache
confirm_through confirmed w =
    let count = add16 (sub16 confirmed w.head) 1 in
    let gone = if is_positive16 count then advance (min count (span w)) w else w in
    drop_empty (span gone) gone

-- The loop over the IDs before the base.
unfoldable pub mark_before : ℕ → ℕ → ℕ → Cache → Cache
mark_before cutoff id zero w = w
mark_before cutoff id (suc n) w = mark_before cutoff (add16 id 1) n (mark cutoff id w)

-- `IHS_OutgoingNack`.
unfoldable pub outgoing_nack : ℕ → Packet → Cache → Cache
outgoing_nack cutoff packet w =
    let h = packet.header in
    let b = packet.body in
    let noted = record w { last_feedback = h.send_timestamp } in
    let echo =
      get_or b 0 0 + 2 ^ 8 * get_or b 1 0 + 2 ^ 16 * get_or b 2 0 + 2 ^ 24 * get_or b 3 0 in
    let late = if is_negative32 (sub32 cutoff echo) then echo else cutoff in
    let confirmed = get_or b 4 0 + 2 ^ 8 * get_or b 5 0 in
    let masked = report_mask late h.packet_id (drop 6 b) (confirm_through confirmed noted) in
    let before_base =
      λ (limit : ℕ) (v : Cache). mark_before limit v.head (min (h.packet_id - v.head) (span v)) v in
    if not (w.last_feedback == 0) && is_negative32 (sub32 h.send_timestamp w.last_feedback)
    then w
    else if length b == 0
    then before_base cutoff noted
    else if ltb (length b) 6
    then noted
    else before_base late masked
