-- ===== src/Buffer/Laws.antt =====
-- src/ihs_buffer.c: growth keeps what a buffer holds, and a write changes exactly its own part.
use ihslib.Common.{
  ℕ, zero, suc, ◌+◌, ◌-◌, ◌*◌, ◌^◌, ◌≤◌, ◌<◌, ◌≡◌, refl, sym, subst, true, false, ◌&&◌, Option,
  none, some, List, [], ◌++◌, append-nil, replicate, length-replicate, ltb, leb, ◌==◌, arith, inl,
  inr, Bool-cases, length-append,
}
use ihslib.Buffer.Defs.{
  Buffer, ◌>>=◌, capacity, double_to, ensure_capacity_exact, start_capacity, ensure_capacity,
}

-- The parts of a buffer lie in its allocation, which is an object in memory.
pub record IsValid (b : Buffer) : Type 0 where
  pub fits : b.offset + b.size + b.suffix ≤ capacity b
  pub small : capacity b < 2 ^ 63

pub >>=-eq-some {ℓ κ} :
    {A : Type ℓ} {B : Type κ} (m : Option A) (f : A → Option B) {b : B}
    → (m >>= f) ≡ some b
    → (a : A) × (m ≡ some a) × (f a ≡ some b)
>>=-eq-some none f h = absurd (cc)
>>=-eq-some (some a) f h = (a, refl, h)

-- The doubling loop ends at or above what is wanted, within the rounds given, and never shrinks.
pub double_to_lem :
    (fuel n wanted : ℕ)
    → 0 < n
    → wanted ≤ n + fuel
    → (wanted ≤ double_to fuel n wanted) × (n ≤ double_to fuel n wanted)
unfolding double_to
double_to_lem zero n wanted pos enough = (omega arith, omega arith)
double_to_lem (suc fuel) n wanted pos enough = elim (Bool-cases (ltb n wanted)) [
  | inl more ↦
      let r = double_to_lem fuel (n * 2) wanted (omega arith) (omega arith) in
      rw more (r.0, omega (arith, r.1))
  | inr done ↦ rw done (ground arith, omega arith)
]

-- What an operation that only makes room leaves alone.
pub record Grown (b : Buffer) (wanted : ℕ) (c : Buffer) : Type 0 where
  pub extra : List ℕ
  pub cells_eq : c.cells ≡ b.cells ++ extra
  pub offset_eq : c.offset ≡ b.offset
  pub size_eq : c.size ≡ b.size
  pub suffix_eq : c.suffix ≡ b.suffix
  pub room : wanted ≤ capacity c

module _ (junk : ℕ) where
  ensure_capacity_exact-Grown :
      (b : Buffer) (wanted : ℕ) (c : Buffer)
      → ensure_capacity_exact junk b wanted ≡ some c
      → Grown b wanted c
  unfolding ensure_capacity_exact
  ensure_capacity_exact-Grown b wanted c e =
      elim (Bool-cases (ltb 0 b.max_capacity && ltb b.max_capacity wanted)) [
        | inl over ↦ absurd (none-ne (rw over at e))
        | inr under ↦ elim (Bool-cases (leb wanted (capacity b))) [
          | inl enough ↦ same (some-eq (rw (under, enough) at e)) enough
          | inr short ↦ grow (some-eq (rw (under, short) at e)) short
        ]
      ]
    where
      none-ne : none ≡ some c → ⊥
      none-ne p = cc

      some-eq : {x : Buffer} → some x ≡ some c → x ≡ c
      some-eq p = cc

      same : b ≡ c → leb wanted (capacity b) ≡ true → Grown b wanted c
      same p h = subst (Grown b wanted) p (record {
        extra = [];
        cells_eq = sym (append-nil b.cells);
        offset_eq = refl;
        size_eq = refl;
        suffix_eq = refl;
        room = ground arith;
      })

      grow :
          record b { cells = b.cells ++ replicate (wanted - capacity b) junk } ≡ c
          → leb wanted (capacity b) ≡ false
          → Grown b wanted c
      grow p h = subst (Grown b wanted) p (record {
        extra = replicate (wanted - capacity b) junk;
        cells_eq = refl;
        offset_eq = refl;
        size_eq = refl;
        suffix_eq = refl;
        room = ground (
          arith,
          length-append b.cells (replicate (wanted - capacity b) junk),
          length-replicate (wanted - capacity b) junk,
        );
      })

  -- Making room keeps the bytes and the geometry, and the room is there.
  pub ensure_capacity-Grown :
      (b : Buffer) (wanted : ℕ) (c : Buffer)
      → ensure_capacity junk b wanted ≡ some c
      → Grown b wanted c
  unfolding ensure_capacity
  ensure_capacity-Grown b wanted c e = elim (Bool-cases (start_capacity junk b == 0)) [
    | inl zero_start ↦ absurd (none-ne (rw zero_start at e))
    | inr start ↦ weaken start (ensure_capacity_exact-Grown b _ c (rw start at e))
  ]
    where
      none-ne : none ≡ some c → ⊥
      none-ne p = cc

      weaken :
          (start_capacity junk b == 0) ≡ false
          → Grown b (double_to wanted (start_capacity junk b) wanted) c
          → Grown b wanted c
      weaken h g = record {
        extra = g.extra;
        cells_eq = g.cells_eq;
        offset_eq = g.offset_eq;
        size_eq = g.size_eq;
        suffix_eq = g.suffix_eq;
        room = ground (arith, g.room, double_to_lem wanted (start_capacity junk b) wanted);
      }
