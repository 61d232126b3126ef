-- ===== src/Stats/Samples.antt =====
-- src/session/network_stats.c, network_stats.h: the ring of samples. `slots` is the array `data`, as
-- long as the capacity. The capacity is 0 or 8 doubled some times, so `& (capacity - 1)` is the
-- remainder by it. `allocated` is whether `malloc` gave the larger array, `junk` what its fresh
-- cells hold; sizes of objects in memory do not wrap.
use ihslib.Common.{
  ℕ, zero, suc, ◌+◌, ◌-◌, ◌*◌, ◌%◌, Bool, not, ◌&&◌, Option, none, some, List, [], ◌∷◌, ◌++◌,
  length, get_or, set, replicate, ltb, ◌==◌, if◌then◌else◌, sub32,
}

-- `IHS_NetworkSample`, with the four `values`.
pub record Sample : Type 0 where
  pub timestamp : ℕ
  pub value0 : ℕ
  pub value1 : ℕ
  pub value2 : ℕ
  pub value3 : ℕ

-- `IHS_NetworkSampleQueue`.
pub record SampleQueue : Type 0 where
  pub slots : List Sample
  pub head : ℕ
  pub count : ℕ

abbrev pub window_ticks : ℕ
window_ticks = 0x30000

abbrev pub zero_sample : Sample
zero_sample = record { timestamp = 0; value0 = 0; value1 = 0; value2 = 0; value3 = 0 }

-- `at`, as an index into the slots.
unfoldable pub index : SampleQueue → ℕ → ℕ
index q i = (q.head + i) % length q.slots

unfoldable pub sample_at : SampleQueue → ℕ → Sample
unfolding index
sample_at q i = get_or q.slots (index q i) zero_sample

-- A write through the pointer that `at` gives.
unfoldable pub set_at : SampleQueue → ℕ → Sample → SampleQueue
unfolding index
set_at q i x = record q { slots = set q.slots (index q i) x }

-- The samples from the `i`th on, `n` of them: what the copying loop of `reserve` reads.
unfoldable pub samples_from : SampleQueue → ℕ → ℕ → List Sample
unfolding sample_at
samples_from q i zero = []
samples_from q i (suc n) = sample_at q i ∷ samples_from q (suc i) n

unfoldable pub larger_capacity : ℕ → ℕ
larger_capacity capacity = if capacity == 0 then 8 else capacity * 2

module _ (allocated : Bool) (junk : Sample) where
  -- `reserve`: none for its result false.
  unfoldable pub reserve : SampleQueue → Option SampleQueue
  unfolding samples_from larger_capacity
  reserve q =
      let capacity = length q.slots in
      if ltb q.count capacity
      then some q
      else if allocated
      then some (record {
        slots = samples_from q 0 q.count ++ replicate (larger_capacity capacity - q.count) junk;
        head = 0;
        count = q.count;
      })
      else none

-- `expired`.
unfoldable pub is_expired : SampleQueue → ℕ → Bool
unfolding sample_at
is_expired q now = not (q.count == 0) && ltb window_ticks (sub32 now (sample_at q 0).timestamp)

-- `pop`.
unfoldable pub pop : SampleQueue → SampleQueue
pop q = record q { head = (q.head + 1) % length q.slots; count = q.count - 1 }

-- `push`.
unfoldable pub push : SampleQueue → Sample → SampleQueue
unfolding set_at
push q x = record (set_at q q.count x) { count = suc q.count }

-- The loop `while (expired(q, now))` of the collectors: each sample is taken out of the sums by
-- `remove` before it is popped. A queue of `fuel` samples at most needs no more rounds.
unfoldable pub expire {ℓ} :
    {S : Type ℓ} → ℕ → ℕ → (Sample → S → S) → SampleQueue → S → SampleQueue × S
unfolding is_expired pop
expire zero now remove q s = (q, s)
expire (suc fuel) now remove q s =
    let rest = expire fuel now remove (pop q) (remove (sample_at q 0) s) in
    if is_expired q now then rest else (q, s)
