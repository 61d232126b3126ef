-- ===== src/Hid/Room.antt =====
-- src/hid/report.c over src/ihs_buffer.c: a message of at most 8192 bytes finds room in the holder's
-- buffer, whose capacity is 8192 halved a few times.
use native.Mathlib.Nat.{pow-succ', le-mul_of_pos_right, two-pow-succ, zero-mul, mul_assoc}
use ihslib.Common.{
  ap, sym, ◌∙◌, ℕ, zero, suc, ◌+◌, ◌*◌, ◌^◌, ◌≤◌, ◌<◌, ◌≡◌, refl, some, List, length, ltb, leb,
  ◌++◌, splice, arith, ◌==◌, ◌&&◌, false, Bool-cases, inl, inr, replicate, ◌-◌, length-append,
  length-replicate, length-splice,
}
use ihslib.Buffer.Defs.{
  Buffer, ◌>>=◌, capacity, double_to, start_capacity, ensure_capacity, ensure_capacity_exact,
  ensure_max_size, pointer_at, is_null, max_size, copy_to,
}
use ihslib.Buffer.Laws.{double_to_lem}
use ihslib.Hid.Report.{stage, commit}
use ihslib.Hid.Staged.{IsStore}

double_pow : (n k w : ℕ) → n * 2 ^ suc k ≡ w → n * 2 * 2 ^ k ≡ w
double_pow n k w h =
    ap (λ (q : ℕ). q) (mul_assoc n 2 (2 ^ k)) ∙ ap (λ (q : ℕ). n * q) (sym (pow-succ' 2 k)) ∙ h

double_to_within :
    (fuel n wanted k : ℕ)
    → n * 2 ^ k ≡ 8192
    → wanted ≤ 8192
    → (j : ℕ) × (double_to fuel n wanted * 2 ^ j ≡ 8192)
unfolding double_to
double_to_within zero n wanted k h le = (k, h)
double_to_within (suc fuel) n wanted zero h le = (zero, ground arith)
double_to_within (suc fuel) n wanted (suc k) h le = elim (Bool-cases (ltb n wanted)) [
  | inl less ↦ rw less (double_to_within fuel (n * 2) wanted k (double_pow n k 8192 h) le)
  | inr enough ↦ rw enough (suc k, h)
]

two_pow_pos : (k : ℕ) → 0 < 2 ^ k
two_pow_pos zero = omega arith
two_pow_pos (suc k) = omega (arith, two-pow-succ k, two_pow_pos k)

nonzero_start : (n k : ℕ) → n * 2 ^ k ≡ 8192 → (0 < n) × (n ≤ 8192)
nonzero_start zero k h = absurd (omega (arith, zero-mul (2 ^ k)))
nonzero_start (suc n) k h =
    (omega arith, omega (arith, le-mul_of_pos_right (suc n) (two_pow_pos k)))

module _ (junk : ℕ) where
  -- A buffer of the holder: no reserved parts, and a capacity that doubles to its limit.
  pub record IsGrowable (b : Buffer) : Type 0 where
    pub offset_zero : b.offset ≡ 0
    pub suffix_zero : b.suffix ≡ 0
    pub limit : b.max_capacity ≡ 8192
    pub doublings : ℕ
    pub doubling : start_capacity junk b * 2 ^ doublings ≡ 8192
    pub within : capacity b ≤ 8192

  start_capacity-full : (b : Buffer) (r : ℕ) → capacity b ≡ r → 0 < r → start_capacity junk b ≡ r
  unfolding start_capacity
  start_capacity-full b r e pos = ground arith

  start_capacity-cells :
      (b : Buffer) (cells : List ℕ)
      → length cells ≡ capacity b
      → start_capacity junk (record b { cells = cells }) ≡ start_capacity junk b
  unfolding start_capacity
  start_capacity-cells b cells e = rw e refl

  ensure_capacity_grown :
      (b : Buffer) (wanted : ℕ)
      → IsGrowable b
      → 0 < wanted
      → wanted ≤ 8192
      → (c : Buffer) × (ensure_capacity junk b wanted ≡ some c)
        × IsGrowable c
        × (wanted ≤ capacity c)
        × (c.size ≡ b.size)
  unfolding ensure_capacity ensure_capacity_exact
  ensure_capacity_grown b wanted g pos le =
      let start = start_capacity junk b in
      let r = double_to wanted start wanted in
      let s = nonzero_start start g.doublings g.doubling in
      let more = double_to_within wanted start wanted g.doublings g.doubling le in
      let bound = nonzero_start r more.0 more.1 in
      let reached = double_to_lem wanted start wanted s.0 (omega arith) in
      let started : (start == 0) ≡ false = ground arith in
      let allowed : ltb 0 b.max_capacity && ltb b.max_capacity r ≡ false =
        ground (arith, g.limit) in
      elim (Bool-cases (leb r (capacity b))) [
        | inl enough ↦ (b, rw (started, allowed, enough) refl, g, ground arith, refl)
        | inr short ↦
            let n = length-append b.cells (replicate (r - capacity b) junk) in
            let full : capacity (record b { cells = b.cells ++ replicate (r - capacity b) junk })
                ≡ r =
              ground (arith, n, length-replicate (r - capacity b) junk) in
            (
              record b { cells = b.cells ++ replicate (r - capacity b) junk },
              rw (started, allowed, short) refl,
              record {
                offset_zero = g.offset_zero;
                suffix_zero = g.suffix_zero;
                limit = g.limit;
                doublings = more.0;
                doubling =
                    ap (λ (m : ℕ). m * 2 ^ more.0)
                      (start_capacity-full
                        (record b { cells = b.cells ++ replicate (r - capacity b) junk }) r full
                        (omega arith))
                    ∙ more.1;
                within = omega (arith, full);
              },
              omega (arith, full),
              refl,
            )
      ]

  copy_staged :
      (c : Buffer) (reserve : ℕ) (bytes : List ℕ)
      → IsGrowable c
      → 0 < reserve
      → c.size + reserve ≤ capacity c
      → length bytes ≤ reserve
      → (pointer_at c c.size >>= λ i. copy_to c i bytes)
        ≡ some (record c { cells = splice c.cells (c.offset + c.size) bytes })
  unfolding pointer_at copy_to is_null max_size
  copy_staged c reserve bytes g pos room fit =
      ground (arith, g.offset_zero, g.suffix_zero, g.within)

  pub stage_total :
      (b : Buffer) (reserve : ℕ) (bytes : List ℕ)
      → IsStore b
      → IsGrowable b
      → 0 < reserve
      → b.size + reserve ≤ 8192
      → length bytes ≤ reserve
      → (d : Buffer) × (stage junk b reserve bytes ≡ some d) × IsGrowable d
  unfolding stage ensure_max_size
  stage_total b reserve bytes s g pos le fit =
      let e =
        ensure_capacity_grown b (b.offset + (b.size + reserve) + b.suffix) g (omega arith)
          (omega (arith, g.offset_zero, g.suffix_zero)) in
      let n : e.0.size + reserve ≤ capacity e.0 = omega (arith, e.3, e.4) in
      let fits : length (splice e.0.cells (e.0.offset + e.0.size) bytes) ≡ capacity e.0 =
        length-splice e.0.cells bytes (e.0.offset + e.0.size)
          (omega (arith, e.2.offset_zero, n, fit)) in
      (
        record e.0 { cells = splice e.0.cells (e.0.offset + e.0.size) bytes },
        rw e.1 (copy_staged e.0 reserve bytes e.2 pos n fit),
        record {
          offset_zero = e.2.offset_zero;
          suffix_zero = e.2.suffix_zero;
          limit = e.2.limit;
          doublings = e.2.doublings;
          doubling =
              ap (λ (k : ℕ). k * 2 ^ e.2.doublings)
                (start_capacity-cells e.0 (splice e.0.cells (e.0.offset + e.0.size) bytes) fits)
              ∙ e.2.doubling;
          within = omega (arith, fits, e.2.within);
        },
      )

  pub commit-IsGrowable : (d : Buffer) (k : ℕ) → IsGrowable d → IsGrowable (commit d k)
  unfolding commit start_capacity
  commit-IsGrowable d k g = record {
    offset_zero = g.offset_zero;
    suffix_zero = g.suffix_zero;
    limit = g.limit;
    doublings = g.doublings;
    doubling = g.doubling;
    within = g.within;
  }
