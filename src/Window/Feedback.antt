-- ===== src/Window/Feedback.antt =====
-- src/session/window.c: what the ring reports of missing packets. A bitmap is the list of its bits.
use ihslib.Common.{
  ℕ, zero, suc, ◌+◌, ◌-◌, ◌/◌, ◌%◌, ◌^◌, min, Bool, true, false, not, ◌&&◌, Option, none, some,
  List, set, replicate, ltb, ◌==◌, if◌then◌else◌, add16, sub16, sub32, is_negative32,
}
use ihslib.Window.State.{Window, is_used, size, next_needed, live_slot}

unfoldable pub set_bit : ℕ → ℕ → List Bool → List Bool
set_bit offset room bits = if ltb offset room then set bits offset true else bits

-- The loop of `IHS_SessionPacketsWindowHoleBitmap` from the `i`th live slot on, `n` slots.
unfoldable pub mark_held : Window → ℕ → ℕ → ℕ → ℕ → List Bool → List Bool
unfolding live_slot is_used set_bit
mark_held w start room i zero bits = bits
mark_held w start room i (suc n) bits =
    let id = sub16 w.tail_id (n % 2 ^ 16) in
    mark_held w start room (suc i) n
      (if is_used (live_slot w i) then set_bit (sub16 id start) room bits else bits)

-- `IHS_SessionPacketsWindowHoleBitmap`, which leaves the bitmap alone in an empty window.
unfoldable pub hole_bitmap : Window → ℕ → ℕ → List Bool → List Bool
unfolding size mark_held
hole_bitmap w start room bits =
    if size w == 0
    then bits
    else if room == 0
    then bits
    else mark_held w start room 0 (size w) (replicate room false)

-- How many live slots from the `i`th on, `n` at most, agree with a presence.
unfoldable pub run_length : Window → Bool → ℕ → ℕ → ℕ
unfolding live_slot is_used
run_length w present i zero = 0
run_length w present i (suc n) =
    let rest = run_length w present (suc i) n in
    if (if is_used (live_slot w i) then present else not present) then suc rest else 0

-- The loop of `IHS_SessionPacketsWindowHasHole` from the `i`th live slot on, `n` slots.
unfoldable pub hole_from : Window → ℕ → ℕ → Bool
unfolding live_slot is_used
hole_from w i zero = false
hole_from w i (suc n) =
    let rest = hole_from w (suc i) n in if not (is_used (live_slot w i)) then true else rest

-- `IHS_SessionPacketsWindowHasHole`.
unfoldable pub has_hole : Window → Bool
unfolding hole_from size
has_hole w = if size w == 0 then false else hole_from w 0 (size w)

-- `IHS_SessionPacketsWindowContiguousId`.
unfoldable pub contiguous_id : Window → ℕ
unfolding run_length size
contiguous_id w = add16 (sub16 w.tail_id (size w)) (run_length w true 0 (size w))

-- `IHS_MediaFeedback`.
pub record MediaFeedback : Type 0 where
  pub base : ℕ
  pub confirmed : ℕ
  pub bitmap : List Bool
  pub bitmap_bytes : ℕ
  pub receive_timestamp : ℕ
  pub retransmit_count : ℕ

-- The positions of the first missing live slot and of the first present one behind it.
unfoldable pub first_missing : Window → ℕ
unfolding run_length size
first_missing w = run_length w true 0 (size w)

unfoldable pub first_present : Window → ℕ
unfolding run_length size first_missing
first_present w = first_missing w + run_length w false (first_missing w) (size w - first_missing w)

-- `IHS_SessionPacketsWindowMediaFeedback`: none for the result false.
unfoldable pub media_feedback : Window → Option MediaFeedback
unfolding first_missing first_present live_slot next_needed hole_bitmap size
media_feedback w =
    if first_present w == size w
    then none
    else some (record {
      base = add16 (next_needed w) (first_present w);
      confirmed = sub16 (add16 (next_needed w) (first_missing w)) 1;
      bitmap = hole_bitmap w (add16 (next_needed w) (first_present w)) 320 (replicate 320 false);
      bitmap_bytes = (min 320 (size w - first_present w) + 7) / 8;
      receive_timestamp = (live_slot w (first_present w)).header.receive_timestamp;
      retransmit_count = (live_slot w (first_present w)).header.retransmit_count;
    })

-- The loop of `IHS_SessionPacketsWindowReliableFeedback`: a present slot is older than 65 ticks.
unfoldable pub is_mature_from : Window → ℕ → ℕ → ℕ → Bool
unfolding live_slot is_used
is_mature_from w now i zero = false
is_mature_from w now i (suc n) =
    let s = live_slot w i in
    let rest = is_mature_from w now (suc i) n in
    if is_used s && is_negative32 (sub32 s.header.receive_timestamp (sub32 now 65))
    then true
    else rest

-- `IHS_SessionPacketsWindowReliableFeedback`.
unfoldable pub reliable_feedback : Window → ℕ → Option (MediaFeedback × Bool)
unfolding media_feedback is_mature_from next_needed size
reliable_feedback w now = elim (media_feedback w) [
  | none ↦ none
  | some f ↦
      let first = sub16 f.base (next_needed w) in
      some (f, is_mature_from w now first (size w - first))
]
