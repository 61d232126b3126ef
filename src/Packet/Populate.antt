-- ===== src/Packet/Populate.antt =====
-- src/session/packet.c: populating a packet's buffer puts its datagram there, in place.
use ihslib.Common.{
  ℕ, ◌+◌, ◌-◌, ◌≤◌, ◌<◌, ◌≡◌, refl, sym, ap, ap₂, ◌∙◌, true, false, some, List, [], ◌++◌,
  append_assoc, append-nil, take, length, if◌then◌else◌, slice, splice, arith, slice_add,
  slice-splice_before, slice-splice_self, slice-splice_after, length-splice, inl, inr, Bool-cases,
}
use ihslib.Buffer.Defs.{
  Buffer, capacity, payload, used_size, pointer_at, is_null, max_size, offset_by, forward, back,
  copy_to, write_mem,
}
use ihslib.Buffer.Laws.{IsValid}
use ihslib.Buffer.Writes.{write_mem_total}
use ihslib.Crc32c.{crc32c}
use ihslib.Packet.Header.{IsWire}
use ihslib.Packet.Codec.{
  header_size, header_serialize, length-header_serialize, wire_header, write_uint32_le,
}
use ihslib.Packet.Wire.{WirePacket, parsed, packet_size, parse, write_crc, populate}
use ihslib.Packet.RoundTrip.{datagram, tail_of, parse-datagram}

-- A packet that `IHS_SessionPacketBodyInitialize` prepared and that was filled: thirteen bytes
-- before the body, four behind it for a CRC, and in that case room past the four, which
-- `IHS_BufferSuffixPointer` asserts.
pub record IsPrepared (p : WirePacket) : Type 0 where
  pub valid : IsValid p.body
  pub limited : capacity p.body ≤ p.body.max_capacity
  pub offset_eq : p.body.offset ≡ header_size
  pub suffix_eq : p.body.suffix ≡ (if p.header.has_crc then 4 else 0)
  pub room : p.header.has_crc ≡ true → header_size + p.body.size + 4 < capacity p.body

write_crc_step :
    (b d : Buffer) (i j : ℕ)
    → b.suffix ≡ 4
    → pointer_at b 0 ≡ some i
    → pointer_at b b.size ≡ some j
    → copy_to b j (write_uint32_le (crc32c (slice i b.size b.cells))) ≡ some d
    → write_crc b ≡ some d
unfolding write_crc
write_crc_step b d i j s p q e = ground arith

populate_chain :
    (junk : ℕ) (p : WirePacket) (o h s c : Buffer)
    → p.body.offset ≡ header_size
    → offset_by p.body (back header_size) ≡ some o
    → write_mem junk o 0 (header_serialize p.header) ≡ some h
    → (if p.header.has_crc then write_crc h else some h) ≡ some s
    → offset_by s (forward header_size) ≡ some c
    → c.offset ≡ header_size
    → packet_size (record p { body = c }) ≡ used_size c
    → populate junk p ≡ some (record p { body = c })
unfolding populate
populate_chain junk p o h s c e1 e2 e3 e4 e5 e6 e7 = ground arith

module _ (junk : ℕ) (p : WirePacket) (v : IsPrepared p) where
  opened : Buffer
  opened = record p.body { offset = 0; size = p.body.size + header_size }

  headed : Buffer
  headed = record opened { cells = splice p.body.cells (0 + 0) (header_serialize p.header) }

  opened-eq : offset_by p.body (back header_size) ≡ some opened
  unfolding offset_by opened
  opened-eq = ground (arith, v.offset_eq)

  opened-IsValid : IsValid opened
  unfolding opened
  opened-IsValid = record { fits = omega (arith, v.valid.fits, v.offset_eq); small = v.valid.small }

  headed-eq : write_mem junk opened 0 (header_serialize p.header) ≡ some headed
  unfolding opened headed
  headed-eq =
      write_mem_total junk opened opened-IsValid v.limited 0 (header_serialize p.header)
        (omega (arith, length-header_serialize p.header))
        (omega (arith, length-header_serialize p.header))

  length-headed : length headed.cells ≡ capacity p.body
  unfolding headed opened
  length-headed =
      length-splice p.body.cells (header_serialize p.header) (0 + 0)
        (omega (arith, length-header_serialize p.header, v.valid.fits, v.offset_eq))

  header-length : length (header_serialize p.header) ≡ 13
  header-length = length-header_serialize p.header

  -- The payload stays where it was, behind the header.
  headed-body : slice 13 p.body.size headed.cells ≡ payload p.body
  unfolding headed opened payload
  headed-body =
      slice-splice_after p.body.cells (header_serialize p.header) 13 p.body.size 0
        (omega (arith, header-length)) (omega (arith, header-length, v.valid.fits, v.offset_eq))
      ∙ ap (λ i. slice i p.body.size p.body.cells) (sym v.offset_eq)

  headed-front : slice 0 13 headed.cells ≡ header_serialize p.header
  unfolding headed opened
  headed-front =
      ap (λ n. slice 0 n (splice p.body.cells 0 (header_serialize p.header))) (sym header-length)
      ∙ slice-splice_self p.body.cells (header_serialize p.header) 0 (omega arith)

  -- With the header in front, the cells from the start on hold the datagram less its tail.
  headed-slice :
      slice 0 (header_size + p.body.size) headed.cells ≡ header_serialize p.header ++ payload p.body
  headed-slice =
      slice_add 0 header_size p.body.size headed.cells ∙ ap₂ ◌++◌ headed-front headed-body

  -- What `populate` seals, with or without a CRC.
  crc_bytes : List ℕ
  crc_bytes = write_uint32_le (crc32c (header_serialize p.header ++ payload p.body))

  sealed : Buffer
  sealed = record headed { cells = splice headed.cells (p.body.size + header_size) crc_bytes }

  write_crc-eq : p.header.has_crc ≡ true → write_crc headed ≡ some sealed
  unfolding write_uint32_le crc_bytes
  write_crc-eq c =
      write_crc_step headed sealed 0 (p.body.size + header_size) suffix-eq start finish (
        ap (λ l. copy_to headed (p.body.size + header_size) (write_uint32_le (crc32c l))) covered
        ∙ copied)
    where
      suffix-eq : headed.suffix ≡ 4
      suffix-eq = unfold headed opened in (v.suffix_eq ∙ rw c)

      start : pointer_at headed 0 ≡ some 0
      start =
          unfold pointer_at is_null max_size headed opened in
          ground
            (arith, length-headed, v.valid.small, v.valid.fits, v.offset_eq, v.suffix_eq, v.room c)

      finish : pointer_at headed headed.size ≡ some (p.body.size + header_size)
      finish =
          unfold pointer_at is_null max_size headed opened in
          ground
            (arith, length-headed, v.valid.small, v.valid.fits, v.offset_eq, v.suffix_eq, v.room c)

      size-eq : headed.size ≡ header_size + p.body.size
      size-eq = unfold headed opened in omega arith

      covered : slice 0 headed.size headed.cells ≡ header_serialize p.header ++ payload p.body
      covered = ap (λ n. slice 0 n headed.cells) size-eq ∙ headed-slice

      copied : copy_to headed (p.body.size + header_size) crc_bytes ≡ some sealed
      copied =
          unfold copy_to sealed crc_bytes write_uint32_le in ground (arith, length-headed, v.room c)

  -- The body again behind its header, over given cells.
  closed : List ℕ → Buffer
  closed cells = record p.body {
    cells = cells;
    offset = 0 + header_size;
    size = p.body.size + header_size - header_size;
  }

  closed-eq :
      (cells : List ℕ)
      → offset_by (record headed { cells = cells }) (forward header_size) ≡ some (closed cells)
  unfolding offset_by closed headed opened
  closed-eq cells = ground arith

  payload-closed :
      (cells : List ℕ)
      → slice 13 p.body.size cells ≡ payload p.body
      → payload (closed cells) ≡ payload p.body
  unfolding closed
  payload-closed cells e = unfold payload in ap (λ n. slice 13 n cells) (omega arith) ∙ e

  used_size-closed :
      (cells : List ℕ)
      → used_size (closed cells) ≡ (header_size + p.body.size) + (if p.header.has_crc then 4 else 0)
  unfolding used_size closed
  used_size-closed cells = ground (arith, v.suffix_eq)

  sizes :
      (cells : List ℕ) → packet_size (record p { body = closed cells }) ≡ used_size (closed cells)
  unfolding packet_size used_size closed
  sizes cells = ground (arith, v.suffix_eq)

  -- The outcome: the packet with its body behind the header again.
  record IsPopulated (cells : List ℕ) : Type 0 where
    done : populate junk p ≡ some (record p { body = closed cells })
    wire : slice 0 (used_size (closed cells)) cells ≡ datagram p.header (payload p.body)
    kept : payload (closed cells) ≡ payload p.body

  tail-eq : p.header.has_crc ≡ true → tail_of p.header (payload p.body) ≡ crc_bytes
  unfolding crc_bytes
  tail-eq c = rw c

  tail-plain : p.header.has_crc ≡ false → tail_of p.header (payload p.body) ≡ []
  tail-plain c = rw c

  length-crc_bytes : length crc_bytes ≡ 4
  unfolding crc_bytes write_uint32_le
  length-crc_bytes = refl

  sealed-old :
      (i n : ℕ)
      → i + n ≤ header_size + p.body.size
      → slice i n sealed.cells ≡ slice i n headed.cells
  unfolding sealed
  sealed-old i n h =
      slice-splice_before headed.cells crc_bytes i n (p.body.size + header_size) (omega arith)
        (omega (arith, length-headed, v.valid.fits, v.offset_eq))

  sealed-tail : slice (0 + (header_size + p.body.size)) 4 sealed.cells ≡ crc_bytes
  unfolding sealed
  sealed-tail =
      ap₂ (λ i n. slice i n (splice headed.cells (p.body.size + header_size) crc_bytes))
        (omega arith) (sym length-crc_bytes)
      ∙ slice-splice_self headed.cells crc_bytes (p.body.size + header_size)
          (omega (arith, length-headed, v.valid.fits, v.offset_eq))

  IsPopulated-crc : p.header.has_crc ≡ true → IsPopulated sealed.cells
  IsPopulated-crc c = record {
    done =
        populate_chain junk p opened headed sealed (closed sealed.cells) v.offset_eq opened-eq
          headed-eq (rw c (write_crc-eq c)) (unfold sealed in closed-eq _) (unfold closed in refl)
          (sizes sealed.cells);
    wire =
        ap (λ n. take n sealed.cells)
          (used_size-closed sealed.cells ∙ ap (λ k. (header_size + p.body.size) + k) (rw c refl))
        ∙ slice_add 0 (header_size + p.body.size) 4 sealed.cells
        ∙ ap₂ ◌++◌ (sealed-old 0 (header_size + p.body.size) (omega arith) ∙ headed-slice)
            sealed-tail
        ∙ append_assoc (header_serialize p.header) (payload p.body) _
        ∙ ap (λ l. header_serialize p.header ++ (payload p.body ++ l)) (sym (tail-eq c));
    kept = payload-closed sealed.cells (sealed-old 13 p.body.size (omega arith) ∙ headed-body);
  }

  IsPopulated-plain : p.header.has_crc ≡ false → IsPopulated headed.cells
  IsPopulated-plain c = record {
    done =
        populate_chain junk p opened headed headed (closed headed.cells) v.offset_eq opened-eq
          headed-eq (rw c refl) (closed-eq headed.cells) (unfold closed in refl)
          (sizes headed.cells);
    wire =
        ap (λ n. take n headed.cells) (used_size-closed headed.cells ∙ no_tail)
        ∙ headed-slice
        ∙ ap (λ l. header_serialize p.header ++ l)
            (sym (ap (λ l. payload p.body ++ l) (tail-plain c) ∙ append-nil (payload p.body)));
    kept = payload-closed headed.cells headed-body;
  }
    where
      no_tail :
          (header_size + p.body.size) + (if p.header.has_crc then 4 else 0)
          ≡ header_size + p.body.size
      no_tail = ground (arith, c)

  populated : (cells : List ℕ) × IsPopulated cells
  populated = elim (Bool-cases p.header.has_crc) [
    | inl crc ↦ (sealed.cells, IsPopulated-crc crc)
    | inr plain ↦ (headed.cells, IsPopulated-plain plain)
  ]

  -- Populating a prepared packet succeeds, keeps its header, its payload and its place in the
  -- buffer, and puts the datagram of the two at the start of the buffer. Received in any valid
  -- buffer, that datagram parses to the header's wire fields and the same payload.
  pub populate-parse :
      IsWire p.header
      → (q : WirePacket) × (populate junk p ≡ some q)
        × (q.header ≡ p.header)
        × (payload q.body ≡ payload p.body)
        × ((src : Buffer)
            → IsValid src
            → payload src ≡ slice 0 (used_size q.body) q.body.cells
            → (r : WirePacket) × (left : Buffer) × (parse src ≡ some (parsed r left))
              × (r.header ≡ wire_header p.header)
              × (payload r.body ≡ payload p.body))
  populate-parse w =
      let (cells, out) = populated in
      (
        record p { body = closed cells },
        out.done,
        refl,
        out.kept,
        λ src sv e.
            let (r, left, a, b, c, d) =
              parse-datagram src sv p.header (payload p.body) w (e ∙ (unfold closed in out.wire)) in
            (r, left, a, b, c),
      )
