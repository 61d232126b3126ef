-- ===== src/Tests/Reliable.antt =====
-- src/session/reliable.c: a loss report with a mask over two retained packets, and a packet that comes a
-- second time.
use ihslib.Common.{◌≡◌, refl, false, not, some, [], ◌∷◌, map, select}
use ihslib.Packet.Header.{Packet}
use ihslib.Retransmission.State.{Pending, find, unlink}
use ihslib.Retransmission.Feedback.{nack_before, acknowledge, acknowledge_through}
use ihslib.Retransmission.Retention.{key}
use ihslib.Window.State.{Window, create_reliable}
use ihslib.Reliable.Nack.{
  ReliableChannel, on_nack_packet, is_stale, nack_body, nack_mask, nack_bits, nack_bit,
  body_contiguous,
}
use ihslib.Reliable.Held.{reported, on_nack_packet-Keeps}
use ihslib.Tests.Retransmission.{two_pending, reliable_header}
use ihslib.Tests.Window.{packet}

abbrev old_window : Window
old_window = create_reliable 4 8

abbrev quiet_channel : ReliableChannel
quiet_channel = record {
  window = some old_window;
  peer_timestamp = 5;
  peer_receive_time = 6;
  feedback_deadline = 0;
  last_nack_timestamp = 0;
  ack_watermark = 7;
  feedback_dirty = false;
  ack_pending = false;
  overflowed = false;
}

-- The host has all up to 65533, and of the next ones 65535 and not 65534.
abbrev report : Packet
report = record {
  header = record (reliable_header 65534) { type = 8 };
  body = 0 ∷ 0 ∷ 0 ∷ 0 ∷ 253 ∷ 255 ∷ 2 ∷ [];
  crc = 0;
}

-- The packet with the ID 0 is left.
report_run :
    map
      (λ (p : Pending). p.packet.header.packet_id)
      (on_nack_packet 1000 100 90 quiet_channel report two_pending).1.pending
    ≡ 0 ∷ []
unfolding on_nack_packet is_stale nack_before nack_body nack_mask nack_bits nack_bit acknowledge
    find acknowledge_through body_contiguous unlink
report_run = refl

on_nack_packet-Keeps_example :
    map key (
      select
        (λ p. not (reported report p))
        (on_nack_packet 1000 100 90 quiet_channel report two_pending).1.pending)
    ≡ map key (select (λ p. not (reported report p)) two_pending.pending)
on_nack_packet-Keeps_example = on_nack_packet-Keeps 1000 100 90 quiet_channel report two_pending
