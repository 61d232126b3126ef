-- ===== src/Buffer/Writes.antt =====
-- src/ihs_buffer.c: `IHS_BufferWriteMem` and `IHS_BufferAppendMem` as overwrites of a byte range.
use ihslib.Common.{
  zero, suc, suc, ◌<◌, ℕ, ◌+◌, ◌≤◌, ◌≡◌, refl, sym, ap, ◌∙◌, subst, none, some, List, ◌++◌, length,
  ltb, leb, if◌then◌else◌, slice, splice, arith, max, inl, inr, Bool-cases, length-splice,
  slice-splice_before, slice-splice_self, slice-splice_after, slice-append_left, slice_add,
}
use ihslib.Buffer.Defs.{
  max_size, is_null, Buffer, ◌>>=◌, capacity, payload, pointer_at, copy_to, ensure_capacity,
  ensure_max_size, append_mem, write_mem, double_to,
}
use ihslib.Buffer.Laws.{IsValid, Grown, >>=-eq-some, ensure_capacity-Grown}

-- What a write of `bytes` at `position` past the offset does.
pub record Written (b : Buffer) (position : ℕ) (bytes : List ℕ) (d : Buffer) : Type 0 where
  pub offset_eq : d.offset ≡ b.offset
  pub suffix_eq : d.suffix ≡ b.suffix
  pub self : slice (b.offset + position) (length bytes) d.cells ≡ bytes
  pub before :
      (i n : ℕ)
      → i + n ≤ b.offset + position
      → i + n ≤ capacity b
      → slice i n d.cells ≡ slice i n b.cells
  pub after :
      (i n : ℕ)
      → b.offset + position + length bytes ≤ i
      → i + n ≤ capacity b
      → slice i n d.cells ≡ slice i n b.cells
  pub room : b.offset + (position + length bytes) + b.suffix ≤ capacity d

pointer_at-eq :
    (b : Buffer) (position i : ℕ) → pointer_at b position ≡ some i → i ≡ b.offset + position
unfolding pointer_at
pointer_at-eq b position i e = ground arith

copy_to-eq :
    (b : Buffer) (i : ℕ) (bytes : List ℕ) (d : Buffer)
    → copy_to b i bytes ≡ some d
    → (i + length bytes ≤ capacity b) × (d ≡ record b { cells = splice b.cells i bytes })
unfolding copy_to
copy_to-eq b i bytes d e = elim (Bool-cases (leb (i + length bytes) (capacity b))) [
  | inl fits ↦ (ground arith, sym (some-eq (rw fits at e)))
  | inr over ↦ absurd (none-ne (rw over at e))
]
  where
    none-ne : none ≡ some d → ⊥
    none-ne p = cc

    some-eq : {x : Buffer} → some x ≡ some d → x ≡ d
    some-eq p = cc

-- A copy into a buffer that was grown first.
Grown-copy :
    (b : Buffer) (position wanted : ℕ) (bytes : List ℕ) (c : Buffer)
    → Grown b wanted c
    → wanted ≡ b.offset + (position + length bytes) + b.suffix
    → (size : ℕ)
    → Written b position bytes
        (record c { cells = splice c.cells (c.offset + position) bytes; size = size })
Grown-copy b position wanted bytes c g w size = record {
  offset_eq = g.offset_eq;
  suffix_eq = g.suffix_eq;
  self =
      rw (← g.offset_eq) (
        slice-splice_self c.cells bytes (c.offset + position) (omega (arith, g.room, g.offset_eq)));
  before = λ i n h k.
      slice-splice_before c.cells bytes i n (c.offset + position) (omega (arith, g.offset_eq))
        (omega (arith, g.room, g.offset_eq))
      ∙ old i n k;
  after = λ i n h k.
      slice-splice_after c.cells bytes i n (c.offset + position) (omega (arith, g.offset_eq))
        (omega (arith, g.room, g.offset_eq))
      ∙ old i n k;
  room = omega (
    arith,
    g.room,
    g.offset_eq,
    length-splice c.cells bytes (c.offset + position) (omega (arith, g.room, g.offset_eq)),
  );
}
  where
    old : (i n : ℕ) → i + n ≤ capacity b → slice i n c.cells ≡ slice i n b.cells
    old i n k = rw g.cells_eq (slice-append_left i n b.cells g.extra k)

Grown-le :
    (b : Buffer) (wanted less : ℕ) (c : Buffer) → Grown b wanted c → less ≤ wanted → Grown b less c
Grown-le b wanted less c g le = record {
  extra = g.extra;
  cells_eq = g.cells_eq;
  offset_eq = g.offset_eq;
  size_eq = g.size_eq;
  suffix_eq = g.suffix_eq;
  room = omega (arith, g.room, le);
}

-- The copy behind both writes: the pointer is taken, and the bytes go there.
place-eq :
    (c : Buffer) (position : ℕ) (bytes : List ℕ) (f : Buffer → Buffer) (d : Buffer)
    → (pointer_at c position >>= λ i. copy_to c i bytes >>= λ w. some (f w)) ≡ some d
    → d ≡ f (record c { cells = splice c.cells (c.offset + position) bytes })
place-eq c position bytes f d e =
    let p = >>=-eq-some (pointer_at c position) (λ i. copy_to c i bytes >>= λ w. some (f w)) e in
    let q = >>=-eq-some (copy_to c p.0 bytes) (λ w. some (f w)) p.2 in
    sym (some-eq q.2)
    ∙ ap f (
        (copy_to-eq c p.0 bytes q.0 q.1).1
        ∙ ap (λ i. record c { cells = splice c.cells i bytes }) (pointer_at-eq c position p.0 p.1))
  where
    some-eq : {x y : Buffer} → some x ≡ some y → x ≡ y
    some-eq h = cc

module _ (junk : ℕ) where
  -- A successful `IHS_BufferWriteMem` writes exactly its range, wherever that lies, keeps all
  -- other bytes that the buffer had, and sets the size to cover the range.
  pub write_mem-Written :
      (b : Buffer) (position : ℕ) (bytes : List ℕ) (d : Buffer)
      → write_mem junk b position bytes ≡ some d
      → Written b position bytes d × (d.size ≡ max b.size (position + length bytes))
  unfolding write_mem ensure_max_size
  write_mem-Written b position bytes d e =
      let end = position + length bytes in
      let finish = λ (w : Buffer). record w { size = if ltb w.size end then end else w.size } in
      let p =
        >>=-eq-some (ensure_capacity junk b (b.offset + end + b.suffix))
          (λ c. pointer_at c position >>= λ i. copy_to c i bytes >>= λ w. some (finish w)) e in
      let g = ensure_capacity-Grown junk b _ p.0 p.1 in
      let q = place-eq p.0 position bytes finish d p.2 in
      (
        subst (Written b position bytes) (sym q) (Grown-copy b position _ bytes p.0 g refl _),
        rw q (ground (arith, g.size_eq)),
      )

  -- Bytes written behind those that a valid buffer holds, for which at least their room was made.
  pub reserved-Written :
      (b : Buffer) (reserve : ℕ) (bytes : List ℕ) (d : Buffer)
      → IsValid b
      → length bytes ≤ reserve
      → (ensure_max_size junk b (b.size + reserve) >>= λ c. pointer_at c c.size >>= λ i.
          copy_to c i bytes >>= λ w. some (record w { size = w.size + length bytes }))
        ≡ some d
      → Written b b.size bytes d
        × (d.size ≡ b.size + length bytes)
        × (payload d ≡ payload b ++ bytes)
  unfolding ensure_max_size payload
  reserved-Written b reserve bytes d v le e =
      let finish = λ (w : Buffer). record w { size = w.size + length bytes } in
      let p =
        >>=-eq-some (ensure_capacity junk b (b.offset + (b.size + reserve) + b.suffix))
          (λ c. pointer_at c c.size >>= λ i. copy_to c i bytes >>= λ w. some (finish w)) e in
      let g =
        Grown-le b _ (b.offset + (b.size + length bytes) + b.suffix) p.0
          (ensure_capacity-Grown junk b _ p.0 p.1) (omega arith) in
      let q = place-eq p.0 p.0.size bytes finish d p.2 in
      let w : Written b b.size bytes d =
        subst (Written b b.size bytes) (sym q)
          (rw g.size_eq (Grown-copy b b.size _ bytes p.0 g refl _)) in
      let n : d.size ≡ b.size + length bytes = rw q (ap (λ k. k + length bytes) g.size_eq) in
      (
        w,
        n,
        rw (w.offset_eq, n)
            (slice_add b.offset b.size (length bytes) d.cells
              ∙ rw (w.before b.offset b.size (omega arith) (omega (arith, v.fits)), w.self) refl),
      )

  -- A successful `IHS_BufferAppendMem` puts the bytes behind those that a valid buffer holds, and
  -- keeps the reserved parts, all other bytes and validity.
  pub append_mem-Written :
      (b : Buffer) (bytes : List ℕ) (d : Buffer)
      → IsValid b
      → append_mem junk b bytes ≡ some d
      → Written b b.size bytes d
        × (d.size ≡ b.size + length bytes)
        × (payload d ≡ payload b ++ bytes)
  unfolding append_mem
  append_mem-Written b bytes d v e = reserved-Written b (length bytes) bytes d v (omega arith) e

module _ (junk : ℕ) (b : Buffer) (v : IsValid b) (cap : capacity b ≤ b.max_capacity) where
  -- Room that is there already is not made again.
  ensure_capacity_enough :
      (wanted : ℕ) → 0 < wanted → wanted ≤ capacity b → ensure_capacity junk b wanted ≡ some b
  unfolding ensure_capacity double_to
  ensure_capacity_enough zero pos h = absurd (omega arith)
  ensure_capacity_enough (suc wanted) pos h = ground arith

  -- In a buffer within its limits an append of at least one byte for which there is room succeeds.
  pub append_mem_total :
      (bytes : List ℕ)
      → 0 < length bytes
      → b.offset + (b.size + length bytes) + b.suffix ≤ capacity b
      → append_mem junk b bytes
        ≡ some (record b {
          cells = splice b.cells (b.offset + b.size) bytes;
          size = b.size + length bytes;
        })
  unfolding append_mem ensure_max_size pointer_at copy_to is_null max_size
  append_mem_total bytes pos room =
      rw (ensure_capacity_enough (b.offset + (b.size + length bytes) + b.suffix) (omega arith) room)
        (ground (arith, v.small))

  -- So does a write of at most as many bytes as were reserved.
  pub reserved_total :
      (reserve : ℕ) (bytes : List ℕ)
      → 0 < reserve
      → length bytes ≤ reserve
      → b.offset + (b.size + reserve) + b.suffix ≤ capacity b
      → (ensure_max_size junk b (b.size + reserve) >>= λ c. pointer_at c c.size >>= λ i.
          copy_to c i bytes >>= λ w. some (record w { size = w.size + length bytes }))
        ≡ some (record b {
          cells = splice b.cells (b.offset + b.size) bytes;
          size = b.size + length bytes;
        })
  unfolding ensure_max_size pointer_at copy_to is_null max_size
  reserved_total reserve bytes pos le room =
      rw (ensure_capacity_enough (b.offset + (b.size + reserve) + b.suffix) (omega arith) room)
        (ground (arith, v.small))

  -- So does an overwrite of at least one byte in range.
  pub write_mem_total :
      (position : ℕ) (bytes : List ℕ)
      → 0 < length bytes
      → position + length bytes ≤ b.size
      → write_mem junk b position bytes
        ≡ some (record b { cells = splice b.cells (b.offset + position) bytes })
  unfolding write_mem ensure_max_size pointer_at copy_to is_null max_size
  write_mem_total position bytes pos room =
      rw
        (ensure_capacity_enough (b.offset + (position + length bytes) + b.suffix) (omega arith)
          (omega (arith, v.fits)))
        (ground (arith, v.small, v.fits))
