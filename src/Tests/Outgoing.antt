-- ===== src/Tests/Outgoing.antt =====
-- src/session/outgoing.c: a window without arrays, whose next ID is the last before the wrap.
use ihslib.Common.{
  ℕ, ◌+◌, ◌%◌, ◌≡◌, refl, inl, Option, true, none, some, List, [], ◌∷◌, ◌==◌, if◌then◌else◌, arith,
  map,
}
use ihslib.Packet.Header.{Packet}
use ihslib.Outgoing.Cache.{Cache, span, cell, get, retain}
use ihslib.Outgoing.Reports.{outgoing_nack, mark_before, mark, is_marked}
use ihslib.Outgoing.Growth.{IsCache}
use ihslib.Outgoing.Retained.{get-retain}
use ihslib.Tests.Retransmission.{reliable_header}

abbrev empty_cache : Cache
empty_cache = record {
  slots = [];
  created = [];
  head = 65535;
  tail = 65535;
  cursor = 65535;
  initialized = true;
  last_feedback = 0;
}

abbrev unreliable_packet : Packet
unreliable_packet = record {
  header = record (reliable_header 2) { type = 3 };
  body = 4 ∷ [];
  crc = 0;
}

empty_cache-IsCache : IsCache empty_cache
unfolding span
empty_cache-IsCache = record {
  head_lt = omega arith;
  tail_lt = omega arith;
  divides = inl refl;
  span_le = omega arith;
  blank = λ j hj le lt. absurd (omega (arith, lt));
}

nothing_there : get empty_cache 2 ≡ none
unfolding get
nothing_there = refl

get-retain_example :
    (t : Cache) × (retain true true empty_cache unreliable_packet 500 ≡ (true, t))
    × IsCache t
    × (get t 2 ≡ (if 2 == 2 then some unreliable_packet else get empty_cache 2))
get-retain_example =
    get-retain empty_cache unreliable_packet 500 2 empty_cache-IsCache refl (omega arith)
      (omega arith) nothing_there (omega arith)

abbrev sent_packet : ℕ → Packet
sent_packet id = record {
  header = record (reliable_header id) { type = 3; retransmit_count = 1; send_timestamp = 100 };
  body = 4 ∷ [];
  crc = 0;
}

-- Two sent packets, from an ID on.
abbrev two_sent : ℕ → Cache
two_sent id = record {
  slots = some (sent_packet id) ∷ some (sent_packet (id + 1)) ∷ [];
  created = 90 ∷ 91 ∷ [];
  head = id;
  tail = (id + 2) % 65536;
  cursor = (id + 2) % 65536;
  initialized = true;
  last_feedback = 0;
}

-- A loss report without a body asks for what lies before its ID.
abbrev report_from : ℕ → Packet
report_from id = record { header = record (reliable_header id) { type = 8 }; body = []; crc = 0 }

-- The times that the two packets have then: 0 is to be sent again.
abbrev slot_time : Option Packet → ℕ
slot_time none = 1
slot_time (some p) = p.header.send_timestamp

abbrev sent_times : Cache → List ℕ
sent_times w = map slot_time w.slots

asked_again : sent_times (outgoing_nack 200 (report_from 12) (two_sent 10)) ≡ 0 ∷ 0 ∷ []
unfolding outgoing_nack mark_before span mark get cell is_marked
asked_again = refl

-- The same report on the same window across the wrap asks for nothing.
wrapped_report : sent_times (outgoing_nack 200 (report_from 0) (two_sent 65534)) ≡ 100 ∷ 100 ∷ []
unfolding outgoing_nack mark_before span
wrapped_report = refl
