-- ===== src/Packet/Codec.antt =====
-- src/session/packet.c: the thirteen header bytes, over the little-endian accesses of
-- src/endianness.h, and the round trip between a header and its bytes.
use ihslib.Common.{
  ℕ, ◌+◌, ◌*◌, ◌/◌, ◌%◌, ◌≡◌, refl, false, List, [], ◌∷◌, leb, if◌then◌else◌, arith, get_or, length,
  ◌++◌,
}
use ihslib.Packet.Header.{Header, IsWire}

-- `IHS_PACKET_HEADER_SIZE`.
abbrev pub header_size : ℕ
header_size = 13

-- `IHS_WriteUInt16LE` and `IHS_WriteSInt16LE`, which copy the same two bytes.
unfoldable pub write_uint16_le : ℕ → List ℕ
write_uint16_le v = v % 256 ∷ v / 256 % 256 ∷ []

-- `IHS_WriteUInt32LE`.
unfoldable pub write_uint32_le : ℕ → List ℕ
write_uint32_le v = v % 256 ∷ v / 256 % 256 ∷ v / 65536 % 256 ∷ v / 16777216 % 256 ∷ []

-- `IHS_ReadUInt16LE` and `IHS_ReadSInt16LE` at an index.
unfoldable pub read_uint16_le : List ℕ → ℕ → ℕ
read_uint16_le src i = get_or src i 0 + 256 * get_or src (i + 1) 0

-- `IHS_ReadUInt32LE` at an index.
unfoldable pub read_uint32_le : List ℕ → ℕ → ℕ
read_uint32_le src i =
    get_or src i 0
    + 256 * get_or src (i + 1) 0
    + 65536 * get_or src (i + 2) 0
    + 16777216 * get_or src (i + 3) 0

-- `IHS_SessionPacketHeaderParse`: bit 7 of the first byte is the CRC flag, the rest the type. What
-- is never on the wire is cleared.
unfoldable pub header_parse : List ℕ → Header
unfolding read_uint16_le read_uint32_le
header_parse src = record {
  has_crc = leb 128 (get_or src 0 0);
  type = get_or src 0 0 % 128;
  retransmit_count = get_or src 1 0;
  src_connection_id = get_or src 2 0;
  dst_connection_id = get_or src 3 0;
  channel_id = get_or src 4 0;
  fragment_id = read_uint16_le src 5;
  packet_id = read_uint16_le src 7;
  send_timestamp = read_uint32_le src 9;
  auto_packet_id = false;
  hid_report = false;
  receive_timestamp = 0;
  receive_begin = 0;
}

-- `IHS_SessionPacketHeaderSerialize`: the bytes that it writes at the buffer's start.
unfoldable pub header_serialize : Header → List ℕ
unfolding write_uint16_le write_uint32_le
header_serialize h =
    ((if h.has_crc then 0x80 else 0) + h.type % 128)
    ∷ h.retransmit_count
    ∷ h.src_connection_id
    ∷ h.dst_connection_id
    ∷ h.channel_id % 256
    ∷ (write_uint16_le h.fragment_id
        ++ (write_uint16_le h.packet_id ++ write_uint32_le h.send_timestamp))

pub length-header_serialize : (h : Header) → length (header_serialize h) ≡ header_size
unfolding header_serialize
length-header_serialize h = refl

-- The header without its local fields: what the peer reads.
unfoldable pub wire_header : Header → Header
wire_header h = record h {
  auto_packet_id = false;
  hid_report = false;
  receive_timestamp = 0;
  receive_begin = 0;
}

-- A header whose fields fit their C types is read back from its bytes, whatever follows them, in
-- every field that is on the wire; the local fields are cleared.
pub header_parse-serialize :
    (h : Header) (rest : List ℕ)
    → IsWire h
    → header_parse (header_serialize h ++ rest) ≡ wire_header h
unfolding header_parse header_serialize wire_header
header_parse-serialize h rest v = ground arith
