-- ===== src/Tests/Retransmission.antt =====
-- Runs of the retransmission model: two reliable packets on one channel, the older one refused.
use ihslib.Common.{leb, inl, ℕ, ◌≡◌, refl, true, false, none, some, [], ◌∷◌, arith, map}
use mathlib.Core.List.{reverse}
use ihslib.Packet.Header.{Header}
use ihslib.Retransmission.State.{Pending, Retransmission, find, change}
use ihslib.Retransmission.Feedback.{acknowledge_through, nudge, nack}
use ihslib.Retransmission.Scan.{
  nacks, acknowledges_through, Turn, Attempt, Sending, apply, process, pending_due, make_attempt,
  has_address, finish_attempt, attempts, attempt, eligible, apply_all,
}
use ihslib.Retransmission.Retention.{keys, keys-process}
use ihslib.Retransmission.Order.{IsHeadOfLine, process-IsHeadOfLine}
use ihslib.Retransmission.Handed.{IsDue, Hands, log-process}
use ihslib.Retransmission.Ledger.{IsLedger, apply-IsLedger, process-IsLedger}
use ihslib.Retransmission.Serial.{IsConfirmed, Without, acknowledge_through_lem}
use ihslib.Retransmission.Late.{finish_attempt_late}

abbrev pub reliable_header : ℕ → Header
reliable_header id = record {
  has_crc = true;
  type = 5;
  retransmit_count = 0;
  src_connection_id = 1;
  dst_connection_id = 2;
  channel_id = 1;
  fragment_id = 0;
  packet_id = id;
  send_timestamp = 100;
  auto_packet_id = false;
  hid_report = false;
  receive_timestamp = 0;
  receive_begin = 0;
}

abbrev pub sent_pending : ℕ → ℕ → Pending
sent_pending address id = record {
  address = address;
  packet = record { header = reliable_header id; body = 7 ∷ []; crc = 0 };
  first_tracked_ms = 10;
  last_send_ms = 20;
  last_send_timestamp = 100;
  next_retry_ms = 45;
  retry_count = 0;
  initial_sent = true;
  ready = true;
  nack_pending = false;
  tracked = true;
  next_wire_count = 1;
  feedback_generation = 3;
}

-- The IDs lie on both sides of the wrap.
abbrev pub two_pending : Retransmission
two_pending = record {
  pending = sent_pending 1 0 ∷ sent_pending 0 65535 ∷ [];
  retired = [];
  next_address = 2;
  stats = record {
    tracked = 5;
    acknowledged = 3;
    nacks = 0;
    retries = 0;
    send_failures = 0;
    outstanding = 2;
    max_ack_latency_ms = 0;
    hid_acknowledged = 0;
  };
}

-- The socket refuses everything; a loss report arrives meanwhile.
abbrev refused : ℕ → Turn
refused i = record {
  before = [];
  sent = false;
  stamp = 900;
  during = nacks 1 0 0 60 ∷ [];
  retry_ticks = some 81;
}

-- The older packet is tried and refused, and the younger one waits.
refused_once :
    map
      (λ (x : Sending). x.packet.header.packet_id)
      (process true two_pending 50 none 1638 none refused).log
    ≡ 65535 ∷ []
unfolding process attempts pending_due attempt eligible find apply_all make_attempt finish_attempt
    apply nack change
refused_once = refl

through_wrap : (acknowledge_through two_pending 1 1 70).1 ≡ 2
unfolding acknowledge_through
through_wrap = refl

two_pending-IsLedger : IsLedger two_pending
two_pending-IsLedger = record { outstanding_eq = refl; tracked_eq = refl }

keys-process_example :
    keys (process true two_pending 50 none 1638 none refused).state ≡ keys two_pending
keys-process_example = keys-process true two_pending 50 none 1638 none refused (λ j. (tt, (tt, tt)))

process-IsHeadOfLine_example : IsHeadOfLine (process true two_pending 50 none 1638 none refused).log
process-IsHeadOfLine_example = process-IsHeadOfLine true two_pending 50 none 1638 none refused

log-process_example :
    Hands
      (IsDue 50 none 1638 none)
      (process true two_pending 50 none 1638 none refused).log
      (reverse two_pending.pending)
log-process_example = log-process 50 none 1638 none two_pending refused

apply-IsLedger_example : IsLedger (apply two_pending (acknowledges_through 1 0 70))
apply-IsLedger_example =
    apply-IsLedger two_pending (acknowledges_through 1 0 70) two_pending-IsLedger

process-IsLedger_example : IsLedger (process true two_pending 50 none 1638 none refused).state
process-IsLedger_example =
    process-IsLedger true two_pending 50 none 1638 none refused two_pending-IsLedger

acknowledge_through_lem_example :
    Without
      (IsConfirmed 1 0)
      two_pending.pending
      (acknowledge_through two_pending 1 0 70).0.pending
      (acknowledge_through two_pending 1 0 70).1
acknowledge_through_lem_example =
    acknowledge_through_lem two_pending 1 0 70 (omega arith) (omega arith, (omega arith, tt))

abbrev late_state : Retransmission
late_state = record two_pending {
  pending = sent_pending 1 0 ∷ unfold nudge in nudge 60 (sent_pending 0 65535) ∷ [];
}

abbrev older_attempt : Attempt
older_attempt = record {
  target = 0;
  packet = record { header = reliable_header 65535; body = 7 ∷ []; crc = 0 };
  feedback_generation = 3;
}

finish_attempt_late_example :
    (q : Pending) × (find
        (has_address 0)
        (finish_attempt 50 older_attempt (refused 0) late_state).pending
      ≡ some q)
    × (q.nack_pending ≡ true)
    × (pending_due 61 (some 950) 1638 none q ≡ true)
    × (pending_due 61 none 1638 none q ≡ leb 60 61)
unfolding find nudge
finish_attempt_late_example =
    (finish_attempt_late 50 older_attempt (refused 0) late_state (sent_pending 0 65535) refl refl
        refl (inl refl) refl (omega arith) 60 61 950 1638 none (inl refl)).0
      refl
