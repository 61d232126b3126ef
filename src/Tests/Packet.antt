-- ===== src/Tests/Packet.antt =====
-- Runs of the packet model: a reliable packet with a CRC, put on the wire and read back.
use ihslib.Common.{
  ◌≡◌, refl, true, false, some, [], ◌∷◌, ◌++◌, arith, replicate, get_or, max, splice,
}
use ihslib.Buffer.Defs.{Buffer, payload, write_mem, ensure_capacity}
use ihslib.Buffer.Laws.{Grown, ensure_capacity-Grown}
use ihslib.Buffer.Writes.{Written, write_mem-Written}
use ihslib.Crc32c.{crctable, crctable_lem, divide_bits}
use ihslib.Packet.Header.{Header, IsWire}
use ihslib.Packet.Codec.{header_serialize, wire_header}
use ihslib.Packet.Wire.{WirePacket, parsed, parse, populate}
use ihslib.Packet.RoundTrip.{datagram, parse-datagram}
use ihslib.Packet.Populate.{populate-parse}

abbrev ack_header : Header
ack_header = record {
  has_crc = true;
  type = 7;
  retransmit_count = 0;
  src_connection_id = 1;
  dst_connection_id = 2;
  channel_id = 1;
  fragment_id = 0xffff;
  packet_id = 513;
  send_timestamp = 0x0102_0304;
  auto_packet_id = false;
  hid_report = false;
  receive_timestamp = 0;
  receive_begin = 0;
}

ack_header-IsWire : IsWire ack_header
ack_header-IsWire = omega arith

-- Thirty cells: the header's thirteen, three bytes of body, four for the CRC, and some room.
abbrev prepared : WirePacket
prepared = record {
  header = ack_header;
  body = record {
    cells = replicate 13 0 ++ (9 ∷ 8 ∷ 7 ∷ replicate 14 0);
    initial_capacity = 30;
    max_capacity = 30;
    offset = 13;
    size = 3;
    suffix = 4;
  };
  crc = 0;
}

abbrev received : Buffer
received = record {
  cells = unfold header_serialize in datagram ack_header (9 ∷ 8 ∷ 7 ∷ []);
  initial_capacity = 2048;
  max_capacity = 2048;
  offset = 0;
  size = 20;
  suffix = 0;
}

abbrev three : Buffer
three = record {
  cells = 1 ∷ 2 ∷ 3 ∷ 4 ∷ 5 ∷ [];
  initial_capacity = 5;
  max_capacity = 0;
  offset = 1;
  size = 3;
  suffix = 0;
}

crctable_lem_example : get_or crctable 200 0 ≡ divide_bits 8 200
crctable_lem_example = crctable_lem 200 (omega arith)

populate-parse_example :
    (q : WirePacket) × (populate 0 prepared ≡ some q) × (payload q.body ≡ payload prepared.body)
populate-parse_example =
    let r =
      populate-parse 0 prepared
        (record {
          valid = record { fits = omega arith; small = omega arith };
          limited = omega arith;
          offset_eq = refl;
          suffix_eq = refl;
          room = λ e. omega arith;
        })
        ack_header-IsWire in
    (r.0, r.1, r.3)

parse-datagram_example :
    (q : WirePacket) × (left : Buffer) × (parse received ≡ some (parsed q left))
    × (q.header ≡ wire_header ack_header)
    × (payload q.body ≡ 9 ∷ 8 ∷ 7 ∷ [])
    × (left.cells ≡ [])
unfolding payload header_serialize
parse-datagram_example =
    parse-datagram received (record { fits = omega arith; small = omega arith }) ack_header
      (9 ∷ 8 ∷ 7 ∷ []) ack_header-IsWire refl

abbrev three_changed : Buffer
three_changed = record three { cells = 1 ∷ 2 ∷ 8 ∷ 9 ∷ 5 ∷ [] }

write_mem-Written_example :
    Written three 1 (8 ∷ 9 ∷ []) three_changed × (three_changed.size ≡ max 3 3)
unfolding write_mem splice
write_mem-Written_example = write_mem-Written 0 three 1 (8 ∷ 9 ∷ []) three_changed refl

abbrev three_extended : Buffer
three_extended = record three { cells = 1 ∷ 2 ∷ 3 ∷ 4 ∷ 8 ∷ 9 ∷ 0 ∷ 0 ∷ 0 ∷ 0 ∷ []; size = 5 }

abbrev three_grown : Buffer
three_grown = record three { cells = 1 ∷ 2 ∷ 3 ∷ 4 ∷ 5 ∷ 0 ∷ 0 ∷ 0 ∷ 0 ∷ 0 ∷ [] }

ensure_capacity-Grown_example : Grown three 7 three_grown
unfolding ensure_capacity
ensure_capacity-Grown_example = ensure_capacity-Grown 0 three 7 three_grown refl
