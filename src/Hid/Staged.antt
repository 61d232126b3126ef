-- ===== src/Hid/Staged.antt =====
-- src/hid/report.c over src/ihs_buffer.c: bytes that are written behind the data of a buffer, and
-- count as data when its size is raised.
use ihslib.Common.{
  ℕ, ◌+◌, ◌^◌, ◌≤◌, ◌<◌, ◌≡◌, refl, some, List, length, ◌-◌, replicate, length-append,
  length-replicate, length-splice, slice, arith,
}
use ihslib.Buffer.Defs.{
  Buffer, ◌>>=◌, capacity, pointer_at, copy_to, double_to, start_capacity, ensure_max_size,
  ensure_capacity, ensure_capacity_exact,
}
use ihslib.Buffer.Laws.{IsValid, >>=-eq-some}
use ihslib.Buffer.Writes.{reserved-Written}
use ihslib.Hid.Report.{stage, commit}

-- A valid buffer within its limit.
pub record IsStore (b : Buffer) : Type 0 where
  pub fits : b.offset + b.size + b.suffix ≤ capacity b
  pub within : capacity b ≤ b.max_capacity
  pub bounded : 0 < b.max_capacity
  pub small : b.max_capacity < 2 ^ 63

-- What staging leaves and what it writes.
pub record Staged (b : Buffer) (bytes : List ℕ) (d : Buffer) : Type 0 where
  pub offset_eq : d.offset ≡ b.offset
  pub size_eq : d.size ≡ b.size
  pub self : slice (b.offset + b.size) (length bytes) d.cells ≡ bytes
  pub before :
      (i n : ℕ) → i + n ≤ b.size → slice (d.offset + i) n d.cells ≡ slice (b.offset + i) n b.cells
  pub store : IsStore d
  pub raised : IsStore (commit d (length bytes))

module _ (junk : ℕ) where
  ensure_capacity_within :
      (wanted : ℕ) (b c : Buffer)
      → ensure_capacity junk b wanted ≡ some c
      → IsStore b
      → (capacity c ≤ c.max_capacity) × (c.max_capacity ≡ b.max_capacity)
  unfolding ensure_capacity ensure_capacity_exact
  ensure_capacity_within wanted b c e s = ground (
    arith,
    length-append b.cells
        (replicate (double_to wanted (start_capacity junk b) wanted - capacity b) junk),
    length-replicate (double_to wanted (start_capacity junk b) wanted - capacity b) junk,
  )

  pointer_at_eq : (b : Buffer) (i : ℕ) → pointer_at b b.size ≡ some i → i ≡ b.offset + b.size
  unfolding pointer_at
  pointer_at_eq b i e = ground arith

  copy_to_within :
      (b d : Buffer) (i : ℕ) (bytes : List ℕ)
      → copy_to b i bytes ≡ some d
      → (capacity d ≡ capacity b) × (d.max_capacity ≡ b.max_capacity) × (d.suffix ≡ b.suffix)
  unfolding copy_to
  copy_to_within b d i bytes e = ground (arith, length-splice b.cells bytes i)

  stage_within :
      (reserve : ℕ) (b : Buffer) (bytes : List ℕ) (d : Buffer)
      → stage junk b reserve bytes ≡ some d
      → IsStore b
      → (capacity d ≤ d.max_capacity) × (d.max_capacity ≡ b.max_capacity)
  unfolding stage ensure_max_size
  stage_within reserve b bytes d e s =
      let p =
        >>=-eq-some (ensure_capacity junk b (b.offset + (b.size + reserve) + b.suffix))
          (λ c. pointer_at c c.size >>= λ i. copy_to c i bytes) e in
      let q = >>=-eq-some (pointer_at p.0 p.0.size) (λ i. copy_to p.0 i bytes) p.2 in
      omega (
        arith,
        ensure_capacity_within (b.offset + (b.size + reserve) + b.suffix) b p.0 p.1 s,
        copy_to_within p.0 d q.0 bytes q.2,
      )

  commit-stage :
      (reserve : ℕ) (b : Buffer) (bytes : List ℕ) (d : Buffer)
      → stage junk b reserve bytes ≡ some d
      → (ensure_max_size junk b (b.size + reserve) >>= λ c. pointer_at c c.size >>= λ i.
          copy_to c i bytes >>= λ w. some (record w { size = w.size + length bytes }))
        ≡ some (record d { size = d.size + length bytes })
  unfolding stage
  commit-stage reserve b bytes d e =
      let p =
        >>=-eq-some (ensure_max_size junk b (b.size + reserve))
          (λ c. pointer_at c c.size >>= λ i. copy_to c i bytes) e in
      let q = >>=-eq-some (pointer_at p.0 p.0.size) (λ i. copy_to p.0 i bytes) p.2 in
      rw (p.1) (rw (q.1) (rw (q.2) refl))

  pub stage-Staged :
      (reserve : ℕ) (b : Buffer) (bytes : List ℕ) (d : Buffer)
      → stage junk b reserve bytes ≡ some d
      → length bytes ≤ reserve
      → IsStore b
      → Staged b bytes d
  unfolding commit
  stage-Staged reserve b bytes d e le s =
      let v : IsValid b = record { fits = s.fits; small = omega (arith, s.within, s.small) } in
      let w = reserved-Written junk b reserve bytes _ v le (commit-stage reserve b bytes d e) in
      let bound = stage_within reserve b bytes d e s in
      let n : d.size ≡ b.size = omega (arith, w.1) in
      record {
        offset_eq = w.0.offset_eq;
        size_eq = n;
        self = w.0.self;
        before = λ i n le.
            rw w.0.offset_eq (w.0.before (b.offset + i) n (omega arith) (omega (arith, s.fits)));
        store = record {
          fits = omega (arith, w.0.room, w.0.offset_eq, w.0.suffix_eq, n);
          within = bound.0;
          bounded = omega (arith, bound, s.bounded);
          small = omega (arith, bound, s.small);
        };
        raised = record {
          fits = omega (arith, w.0.room, w.0.offset_eq, w.0.suffix_eq, n);
          within = bound.0;
          bounded = omega (arith, bound, s.bounded);
          small = omega (arith, bound, s.small);
        };
      }
