-- ===== src/Packet/RoundTrip.antt =====
-- src/session/packet.c: what is put on the wire is read back.
use ihslib.Common.{
  ℕ, ◌+◌, ◌-◌, ◌^◌, ◌<◌, ◌≡◌, refl, sym, ap, ◌∙◌, true, false, some, List, [], ◌++◌, append_assoc,
  take, drop, length, ltb, if◌then◌else◌, slice, arith, take-append, drop-append, length-append,
  take-append-drop, drop_add, length-take_le, length-drop, ==_self, inl, inr, Bool-cases,
}
use ihslib.Buffer.Defs.{
  Buffer, payload, pointer_at, is_null, max_size, offset_by, transfer_ownership, release_ownership,
}
use ihslib.Buffer.Laws.{IsValid}
use ihslib.Crc32c.{crc32c, crc32c-lt}
use ihslib.Packet.Header.{Header, IsWire}
use ihslib.Packet.Codec.{
  header_size, header_parse, header_serialize, header_parse-serialize, length-header_serialize,
  wire_header, write_uint32_le, read_uint32_le,
}
use ihslib.Packet.Wire.{WirePacket, parsed, take_body, check_crc, parse_rest, parse}

-- The bytes behind the body on the wire.
abbrev pub tail_of : Header → List ℕ → List ℕ
tail_of h body = if h.has_crc then write_uint32_le (crc32c (header_serialize h ++ body)) else []

-- The datagram of a header and a body.
abbrev pub datagram : Header → List ℕ → List ℕ
datagram h body = header_serialize h ++ (body ++ tail_of h body)

-- What follows a valid buffer's offset begins with its payload.
drop-payload :
    (b : Buffer) → drop b.offset b.cells ≡ payload b ++ drop b.size (drop b.offset b.cells)
unfolding payload
drop-payload b = sym (take-append-drop b.size (drop b.offset b.cells))

length-payload : (b : Buffer) → IsValid b → length (payload b) ≡ b.size
unfolding payload
length-payload b v =
    length-take_le b.size (drop b.offset b.cells)
      (omega (arith, length-drop b.offset b.cells, v.fits))

pointer_at_total :
    (b : Buffer) (i : ℕ) → IsValid b → i < b.size → pointer_at b i ≡ some (b.offset + i)
unfolding pointer_at is_null max_size
pointer_at_total b i v h = ground (arith, v.fits, v.small)

read_uint32_le-write :
    (v : ℕ) (rest : List ℕ) → v < 2 ^ 32 → read_uint32_le (write_uint32_le v ++ rest) 0 ≡ v
unfolding read_uint32_le write_uint32_le
read_uint32_le-write v rest h = omega arith

parse_rest-crc :
    (k : Header) (src : Buffer)
    → k.has_crc ≡ true
    → parse_rest k src ≡ check_crc k (src.size - header_size) src
unfolding parse_rest
parse_rest-crc k src e = ground arith

parse_rest-plain :
    (k : Header) (src : Buffer)
    → k.has_crc ≡ false
    → parse_rest k src ≡ take_body k 0 (src.size - header_size) src
unfolding parse_rest
parse_rest-plain k src e = ground arith

module _ (src : Buffer) (v : IsValid src) (h : Header) (body : List ℕ) (wire : IsWire h) where
  -- The cells from the offset on, where the payload is a datagram.
  cells_eq :
      payload src ≡ datagram h body
      → drop src.offset src.cells
        ≡ header_serialize h
          ++ (body ++ (tail_of h body ++ drop src.size (drop src.offset src.cells)))
  cells_eq e =
      drop-payload src
      ∙ ap (λ l. l ++ drop src.size (drop src.offset src.cells)) e
      ∙ append_assoc (header_serialize h) (body ++ tail_of h body) _
      ∙ ap (λ l. header_serialize h ++ l) (append_assoc body (tail_of h body) _)

  size_eq :
      payload src ≡ datagram h body
      → src.size ≡ header_size + (length body + length (tail_of h body))
  size_eq e = omega (
    arith,
    length-payload src v,
    ap length e,
    length-append (header_serialize h) (body ++ tail_of h body),
    length-append body (tail_of h body),
    length-header_serialize h,
  )

  -- The body that the parser leaves is the datagram's.
  take_body_lem :
      payload src ≡ datagram h body
      → (k : Header) (crc : ℕ)
      → (q : WirePacket) × (left : Buffer) × (take_body k crc (length body) src
          ≡ some (parsed q left))
        × (q.header ≡ k)
        × (payload q.body ≡ body)
        × (left.cells ≡ [])
  unfolding take_body offset_by transfer_ownership release_ownership payload
  take_body_lem e k crc = (
    record {
      header = k;
      body = record src { offset = src.offset + header_size; size = length body };
      crc = crc;
    },
    record src { cells = []; size = 0; offset = 0 },
    ground (arith, size_eq e),
    refl,
    slice-body,
    refl,
  )
    where
      slice-body : take (length body) (drop (src.offset + header_size) src.cells) ≡ body
      slice-body =
          ap (take (length body)) (
            drop_add (src.offset + header_size) src.offset header_size src.cells refl
            ∙ ap (drop header_size) (cells_eq e)
            ∙ drop-append header_size (header_serialize h) _ (length-header_serialize h))
          ∙ take-append (length body) body _ refl

  tail-eq :
      h.has_crc ≡ true → tail_of h body ≡ write_uint32_le (crc32c (header_serialize h ++ body))
  tail-eq c = rw c

  length-tail : h.has_crc ≡ true → length (tail_of h body) ≡ 4
  unfolding write_uint32_le
  length-tail c = rw c

  length-tail_plain : h.has_crc ≡ false → length (tail_of h body) ≡ 0
  length-tail_plain c = rw c

  -- The CRC check passes over a datagram whose header asks for one.
  check_crc_lem :
      payload src ≡ datagram h body
      → h.has_crc ≡ true
      → (k : Header)
      → check_crc k (length body + 4) src
        ≡ take_body k (crc32c (header_serialize h ++ body)) (length body) src
  unfolding check_crc
  check_crc_lem e c k =
      rw
        (
          less,
          minus,
          pointer_at_total src (header_size + length body) v
              (omega (arith, size_eq e, length-tail c)),
          pointer_at_total src 0 v (omega (arith, size_eq e)),
          covered,
          stored,
          ==_self (crc32c (header_serialize h ++ body)),
        )
        refl
    where
      less : ltb (length body + 4) 4 ≡ false
      less = ground arith

      minus : length body + 4 - 4 ≡ length body
      minus = omega arith

      rest : List ℕ
      rest = drop src.size (drop src.offset src.cells)

      covered :
          slice (src.offset + 0) (header_size + length body) src.cells ≡ header_serialize h ++ body
      covered =
          ap (λ i. take (header_size + length body) (drop i src.cells)) (omega arith)
          ∙ ap (take (header_size + length body))
              (cells_eq e ∙ sym (append_assoc (header_serialize h) body (tail_of h body ++ rest)))
          ∙ take-append (header_size + length body) (header_serialize h ++ body) _
              (omega (arith, length-append (header_serialize h) body, length-header_serialize h))

      stored :
          read_uint32_le (drop (src.offset + (header_size + length body)) src.cells) 0
          ≡ crc32c (header_serialize h ++ body)
      stored =
          ap (λ l. read_uint32_le l 0)
            (drop_add (src.offset + (header_size + length body)) src.offset
                (header_size + length body) src.cells refl
              ∙ ap (drop (header_size + length body)) (
                  cells_eq e
                  ∙ sym (append_assoc (header_serialize h) body (tail_of h body ++ rest)))
              ∙ drop-append (header_size + length body) (header_serialize h ++ body) _ (
                  omega (arith, length-append (header_serialize h) body, length-header_serialize h))
              ∙ ap (λ l. l ++ rest) (tail-eq c))
          ∙ read_uint32_le-write (crc32c (header_serialize h ++ body)) rest
              (crc32c-lt (header_serialize h ++ body))

  has_crc-wire : (wire_header h).has_crc ≡ h.has_crc
  unfolding wire_header
  has_crc-wire = refl

  -- A valid buffer that holds the datagram of a header and a body parses to a packet with the wire
  -- fields of that header and that body, and is left empty. With the CRC flag set the checksum
  -- passes.
  pub parse-datagram :
      payload src ≡ datagram h body
      → (q : WirePacket) × (left : Buffer) × (parse src ≡ some (parsed q left))
        × (q.header ≡ wire_header h)
        × (payload q.body ≡ body)
        × (left.cells ≡ [])
  unfolding parse
  parse-datagram e = elim (Bool-cases h.has_crc) [
    | inl crc ↦
        let (q, left, p, k, b, l) =
          take_body_lem e (wire_header h) (crc32c (header_serialize h ++ body)) in
        (q, left, with_crc crc ∙ p, k, b, l)
    | inr plain ↦
        let (q, left, p, k, b, l) = take_body_lem e (wire_header h) 0 in
        (q, left, without_crc plain ∙ p, k, b, l)
  ]
    where
      enough : ltb src.size header_size ≡ false
      enough = ground (arith, size_eq e)

      header-eq : header_parse (drop (src.offset + 0) src.cells) ≡ wire_header h
      header-eq =
          ap (λ i. header_parse (drop i src.cells)) (omega arith)
          ∙ ap header_parse (cells_eq e)
          ∙ header_parse-serialize h _ wire

      to_rest : parse src ≡ parse_rest (wire_header h) src
      to_rest =
          rw (enough, pointer_at_total src 0 v (omega (arith, size_eq e)))
            (ap (λ k. parse_rest k src) header-eq)

      with_crc :
          h.has_crc ≡ true
          → parse src
            ≡ take_body (wire_header h) (crc32c (header_serialize h ++ body)) (length body) src
      with_crc crc =
          to_rest
          ∙ parse_rest-crc (wire_header h) src (has_crc-wire ∙ crc)
          ∙ ap (λ n. check_crc (wire_header h) n src) (omega (arith, size_eq e, length-tail crc))
          ∙ check_crc_lem e crc (wire_header h)

      without_crc : h.has_crc ≡ false → parse src ≡ take_body (wire_header h) 0 (length body) src
      without_crc plain =
          to_rest
          ∙ parse_rest-plain (wire_header h) src (has_crc-wire ∙ plain)
          ∙ ap (λ n. take_body (wire_header h) 0 n src)
              (omega (arith, size_eq e, length-tail_plain plain))
