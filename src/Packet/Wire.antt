-- ===== src/Packet/Wire.antt =====
-- src/session/packet.c: a packet in its buffer. The header has thirteen reserved bytes before the
-- body and the CRC four behind it, so populating a packet for the wire moves no payload.
use ihslib.Common.{
  ℕ, ◌+◌, ◌-◌, Bool, true, false, Option, none, some, drop, ltb, leb, ◌==◌, if◌then◌else◌, slice,
}
use ihslib.Buffer.Defs.{
  Buffer, ◌>>=◌, used_size, init, pointer_at, copy_to, offset_by, forward, back, write_mem,
  fill_mem, set_suffix_length, transfer_ownership,
}
use ihslib.Crc32c.{crc32c}
use ihslib.Packet.Header.{Header}
use ihslib.Packet.Codec.{
  header_size, header_parse, header_serialize, write_uint32_le, read_uint32_le,
}

-- `IHS_SessionPacket`.
pub record WirePacket : Type 0 where
  pub header : Header
  pub body : Buffer
  pub crc : ℕ

-- The outcome of `IHS_SessionPacketParse`: the packet with the source buffer that is left, or the
-- error that it returns.
pub data ParseResult : Type 0 where
  parsed : WirePacket → Buffer → ParseResult
  bad_header : ParseResult
  bad_checksum : ParseResult

-- An assertion.
abbrev pub assert : Bool → Option (Unit {0})
assert true = some tt
assert false = none

-- `IHS_SessionPacketSize`.
unfoldable pub packet_size : WirePacket → ℕ
packet_size p = header_size + p.body.size + (if p.header.has_crc then 4 else 0)

-- The end of `IHS_SessionPacketParse`: the body becomes a window on the source's bytes.
unfoldable pub take_body : Header → ℕ → ℕ → Buffer → Option ParseResult
take_body h crc body_len src = offset_by src (forward header_size) >>= λ moved.
    let (left, body) = transfer_ownership (record moved { size = body_len }) in
    some (parsed (record { header = h; body = body; crc = crc }) left)

-- The CRC check of `IHS_SessionPacketParse`, which runs for a header with the flag.
unfoldable pub check_crc : Header → ℕ → Buffer → Option ParseResult
check_crc h body_len src =
    if ltb body_len 4
    then some bad_header
    else pointer_at src (header_size + (body_len - 4)) >>= λ j. pointer_at src 0 >>= λ k.
        if crc32c (slice k (header_size + (body_len - 4)) src.cells)
          == read_uint32_le (drop j src.cells) 0
        then take_body h (read_uint32_le (drop j src.cells) 0) (body_len - 4) src
        else some bad_checksum

-- The rest of `IHS_SessionPacketParse`, behind the header.
unfoldable pub parse_rest : Header → Buffer → Option ParseResult
parse_rest h src =
    if h.has_crc
    then check_crc h (src.size - header_size) src
    else take_body h 0 (src.size - header_size) src

-- `IHS_SessionPacketParse`.
unfoldable pub parse : Buffer → Option ParseResult
parse src =
    if ltb src.size header_size
    then some bad_header
    else pointer_at src 0 >>= λ i. parse_rest (header_parse (drop i src.cells)) src

-- The CRC of `IHS_SessionPacketPopulateBuffer`, written over the suffix.
unfoldable pub write_crc : Buffer → Option Buffer
write_crc b = assert (b.suffix == 4) >>= λ _. pointer_at b 0 >>= λ k.
    assert (ltb 0 b.suffix) >>= λ _.
    pointer_at b b.size >>= λ i. copy_to b i (write_uint32_le (crc32c (slice k b.size b.cells)))

module _ (junk : ℕ) where
  -- `IHS_SessionPacketPopulateBuffer`.
  unfoldable pub populate : WirePacket → Option WirePacket
  populate p = assert (p.body.offset == header_size) >>= λ _.
      offset_by p.body (back header_size) >>= λ opened.
      write_mem junk opened 0 (header_serialize p.header) >>= λ headed.
      (if p.header.has_crc then write_crc headed else some headed) >>= λ sealed.
      offset_by sealed (forward header_size) >>= λ body.
      let q = record p { body = body } in
      assert (body.offset == header_size) >>= λ _.
      assert (packet_size q == used_size body) >>= λ _. some q

  -- `IHS_SessionPacketBodyInitialize`.
  unfoldable pub body_initialize : Bool → Option Buffer
  body_initialize has_crc = fill_mem junk (init 2048 2048) 0 0 header_size >>= λ filled.
      offset_by filled (forward header_size) >>= λ body.
      assert (body.offset == header_size) >>= λ _.
      if has_crc
      then (set_suffix_length junk body 4 >>= λ c. assert (c.suffix == 4) >>= λ _. some c)
      else some body

  -- `IHS_SessionPacketPadTo`.
  unfoldable pub pad_to : WirePacket → ℕ → Option WirePacket
  pad_to p size =
      if leb size (header_size + p.body.size)
      then some p
      else fill_mem junk p.body p.body.size 0xfe (size - (header_size + p.body.size)) >>= λ b.
          some (record p { body = b })
