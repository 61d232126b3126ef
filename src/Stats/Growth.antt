-- ===== src/Stats/Growth.antt =====
-- src/session/network_stats.c: the ring keeps its samples where it grows.
use native.Mathlib.Nat.{mod-eq_of_lt}
use ihslib.Common.{
  ℕ, zero, suc, ◌+◌, ◌-◌, ◌<◌, ◌≡◌, inl, inr, refl, ap, ◌∙◌, true, Bool-cases, some, List, ◌++◌,
  length, get_or, replicate, ltb, arith, length-append, length-replicate,
}
use ihslib.Stats.Samples.{
  Sample, SampleQueue, zero_sample, index, sample_at, samples_from, larger_capacity, reserve,
}
use ihslib.Stats.Ring.{contents, IsQueue, at_start, at_next, samples_from-ext}

get_or-samples_from :
    (q : SampleQueue) (rest : List Sample) (i n k : ℕ)
    → k < n
    → get_or (samples_from q i n ++ rest) k zero_sample ≡ sample_at q (i + k)
unfolding samples_from
get_or-samples_from q rest i zero k h = absurd (omega arith)
get_or-samples_from q rest i (suc n) zero h = at_start q i
get_or-samples_from q rest i (suc n) (suc k) h =
    get_or-samples_from q rest (suc i) n k (omega arith) ∙ at_next q i k

length-samples_from : (q : SampleQueue) (i n : ℕ) → length (samples_from q i n) ≡ n
unfolding samples_from
length-samples_from q i zero = refl
length-samples_from q i (suc n) = omega (arith, length-samples_from q (suc i) n)

-- What `reserve` gives: a ring of the same samples with room for one more.
pub record Reserved (q r : SampleQueue) : Type 0 where
  pub valid : IsQueue r
  pub contents_eq : contents r ≡ contents q
  pub count_eq : r.count ≡ q.count
  pub room : r.count < length r.slots

-- The larger ring.
enlarged : SampleQueue → List Sample → SampleQueue
enlarged q rest = record { slots = samples_from q 0 q.count ++ rest; head = 0; count = q.count }

length-enlarged :
    (q : SampleQueue) (rest : List Sample) → length (enlarged q rest).slots ≡ q.count + length rest
unfolding enlarged
length-enlarged q rest =
    omega (arith, length-append (samples_from q 0 q.count) rest, length-samples_from q 0 q.count)

zero_zero_plus : (k : ℕ) → 0 + (0 + k) ≡ k
zero_zero_plus k = omega arith

sample_at-enlarged :
    (q : SampleQueue) (rest : List Sample) (k : ℕ)
    → k < q.count
    → sample_at (enlarged q rest) (0 + k) ≡ sample_at q (0 + k)
unfolding sample_at index enlarged
sample_at-enlarged q rest k lt =
    let len = length-enlarged q rest in
    let below : 0 + (0 + k) < length (enlarged q rest).slots = omega (arith, len, lt) in
    ap (λ n. get_or (enlarged q rest).slots n zero_sample) (mod-eq_of_lt below ∙ zero_zero_plus k)
    ∙ get_or-samples_from q rest 0 q.count k lt

count-enlarged : (q : SampleQueue) (rest : List Sample) → (enlarged q rest).count ≡ q.count
unfolding enlarged
count-enlarged q rest = refl

contents-enlarged : (q : SampleQueue) (rest : List Sample) → contents (enlarged q rest) ≡ contents q
contents-enlarged q rest =
    ap (samples_from (enlarged q rest) 0) (count-enlarged q rest)
    ∙ samples_from-ext (enlarged q rest) q 0 0 q.count (sample_at-enlarged q rest)

module _ (junk : Sample) where
  pub reserve-Reserved :
      (q : SampleQueue)
      → IsQueue q
      → (r : SampleQueue) × (reserve true junk q ≡ some r) × Reserved q r
  unfolding reserve larger_capacity enlarged
  reserve-Reserved q v = elim (Bool-cases (ltb q.count (length q.slots))) [
    | inl roomy ↦ (
      q,
      rw roomy refl,
      record { valid = v; contents_eq = refl; count_eq = refl; room = ground (arith, roomy) },
    )
    | inr full ↦
        let larger = larger_capacity (length q.slots) in
        let rest = replicate (larger - q.count) junk in
        let len = length-enlarged q rest in
        let more = length-replicate (larger - q.count) junk in
        let grown : q.count < larger = ground (arith, full, v) in
        (
          enlarged q rest,
          rw full refl,
          record {
            valid = omega (arith, len, more);
            contents_eq = contents-enlarged q rest;
            count_eq = refl;
            room = omega (arith, len, more, grown);
          },
        )
  ]
