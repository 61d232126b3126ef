-- ===== src/Packet/Header.antt =====
-- src/session/packet.h: packet types, the packet header and a packet whose body is its payload.
-- A signed 16-bit field is kept as its bit pattern, a number below 2 ^ 16. The type is the raw
-- seven-bit value, since `IHS_SessionPacketHeaderParse` keeps unknown types.
use ihslib.Common.{ℕ, ◌^◌, ◌<◌, Bool, List}

abbrev pub type_connect : ℕ
type_connect = 1

abbrev pub type_unreliable : ℕ
type_unreliable = 3

abbrev pub type_unreliable_frag : ℕ
type_unreliable_frag = 4

abbrev pub type_reliable : ℕ
type_reliable = 5

abbrev pub type_reliable_frag : ℕ
type_reliable_frag = 6

abbrev pub type_disconnect : ℕ
type_disconnect = 9

-- `INT16_MIN`, the fragment wildcard of the retransmission lookups.
abbrev pub int16_min : ℕ
int16_min = 0x8000

pub record Header : Type 0 where
  pub has_crc : Bool
  pub type : ℕ
  pub retransmit_count : ℕ
  pub src_connection_id : ℕ
  pub dst_connection_id : ℕ
  pub channel_id : ℕ
  pub fragment_id : ℕ
  pub packet_id : ℕ
  pub send_timestamp : ℕ
  pub auto_packet_id : Bool
  pub hid_report : Bool
  pub receive_timestamp : ℕ
  pub receive_begin : ℕ

-- The body of a packet as the bytes between the reserved header and the reserved suffix.
pub record Packet : Type 0 where
  pub header : Header
  pub body : List ℕ
  pub crc : ℕ

-- Every wire field of the header fits its C type.
pub record IsWire (h : Header) : Type 0 where
  pub type_lt : h.type < 128
  pub retransmit_count_lt : h.retransmit_count < 2 ^ 8
  pub src_connection_id_lt : h.src_connection_id < 2 ^ 8
  pub dst_connection_id_lt : h.dst_connection_id < 2 ^ 8
  pub channel_id_lt : h.channel_id < 2 ^ 8
  pub fragment_id_lt : h.fragment_id < 2 ^ 16
  pub packet_id_lt : h.packet_id < 2 ^ 16
  pub send_timestamp_lt : h.send_timestamp < 2 ^ 32
