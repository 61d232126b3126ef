-- ===== src/Stats/Ring.antt =====
-- src/session/network_stats.c: the ring as the list of its samples, the oldest first.
use native.Mathlib.Nat.{mod-eq_of_lt, mod-eq-sub-mod, mod-lt, mod-add-mod}
use ihslib.Common.{
  ℕ, zero, suc, ◌+◌, ◌-◌, ◌%◌, ◌≤◌, ◌<◌, ◌≡◌, ◌≢◌, ◌⊎◌, refl, sym, ap, ap₂, ◌∙◌, List, [], ◌∷◌,
  ◌++◌, length, get_or, set, arith, length-set, get_or-set_self, get_or-set_ne,
}
use ihslib.Stats.Samples.{
  Sample, SampleQueue, zero_sample, index, sample_at, set_at, samples_from, pop, push,
}

-- The samples that the ring holds.
abbrev pub contents : SampleQueue → List Sample
contents q = samples_from q 0 q.count

-- The cursors lie in the array.
pub record IsQueue (q : SampleQueue) : Type 0 where
  pub head_le : q.head ≤ length q.slots - 1
  pub count_le : q.count ≤ length q.slots

index_cases :
    (q : SampleQueue) (i : ℕ)
    → IsQueue q
    → i < length q.slots
    → ((index q i ≡ q.head + i) × (q.head + i < length q.slots))
      ⊎ ((index q i ≡ q.head + i - length q.slots) × (length q.slots ≤ q.head + i))
unfolding index
index_cases q i v h =
    let c = length q.slots in
    ground (
      arith,
      v,
      mod-eq_of_lt {n = q.head + i} {m = c},
      mod-eq-sub-mod {n = q.head + i} {m = c},
      mod-eq_of_lt {n = q.head + i - c} {m = c},
    )

index-lt : (q : SampleQueue) (i : ℕ) → 0 < length q.slots → index q i < length q.slots
unfolding index
index-lt q i h = mod-lt (q.head + i) h

index_ne :
    (q : SampleQueue) (i j : ℕ)
    → IsQueue q
    → i < length q.slots
    → j < length q.slots
    → i ≢ j
    → index q i ≢ index q j
index_ne q i j v hi hj ne = ground (arith, v, ne, index_cases q i v hi, index_cases q j v hj)

index-set_at : (q : SampleQueue) (i j : ℕ) (x : Sample) → index (set_at q i x) j ≡ index q j
unfolding index set_at
index-set_at q i j x = ap (λ n. (q.head + j) % n) (length-set q.slots (index q i) x)

sample_at-set_at_self :
    (q : SampleQueue) (i : ℕ) (x : Sample) → 0 < length q.slots → sample_at (set_at q i x) i ≡ x
unfolding sample_at set_at
sample_at-set_at_self q i x h =
    ap (λ k. get_or (set q.slots (index q i) x) k zero_sample) (index-set_at q i i x)
    ∙ get_or-set_self q.slots (index q i) x zero_sample (index-lt q i h)

sample_at-set_at_ne :
    (q : SampleQueue) (i j : ℕ) (x : Sample)
    → IsQueue q
    → i < length q.slots
    → j < length q.slots
    → i ≢ j
    → sample_at (set_at q i x) j ≡ sample_at q j
unfolding sample_at set_at
sample_at-set_at_ne q i j x v hi hj ne =
    ap (λ k. get_or (set q.slots (index q i) x) k zero_sample) (index-set_at q i j x)
    ∙ get_or-set_ne q.slots (index q i) (index q j) x zero_sample (index_ne q i j v hi hj ne)

pub at_start : (q : SampleQueue) (i : ℕ) → sample_at q i ≡ sample_at q (i + 0)
at_start q i = ap (sample_at q) (omega arith)

pub at_next : (q : SampleQueue) (i k : ℕ) → sample_at q (suc i + k) ≡ sample_at q (i + suc k)
at_next q i k = ap (sample_at q) (omega arith)

-- Rings that agree on a range of positions give the same samples.
pub samples_from-ext :
    (q r : SampleQueue) (i j n : ℕ)
    → ((k : ℕ) → k < n → sample_at q (i + k) ≡ sample_at r (j + k))
    → samples_from q i n ≡ samples_from r j n
unfolding samples_from
samples_from-ext q r i j zero h = refl
samples_from-ext q r i j (suc n) h =
    ap₂ ◌∷◌ (at_start q i ∙ h 0 (omega arith) ∙ sym (at_start r j)) (
      samples_from-ext q r (suc i) (suc j) n
        (λ k lt. at_next q i k ∙ h (suc k) (omega (arith, lt)) ∙ sym (at_next r j k)))

pub samples_from-snoc :
    (q : SampleQueue) (i n : ℕ)
    → samples_from q i (suc n) ≡ samples_from q i n ++ (sample_at q (i + n) ∷ [])
unfolding samples_from
samples_from-snoc q i zero = ap (λ y. y ∷ []) (at_start q i)
samples_from-snoc q i (suc n) =
    ap (◌∷◌ (sample_at q i)) (
      samples_from-snoc q (suc i) n
      ∙ ap (λ y. samples_from q (suc i) n ++ (y ∷ [])) (at_next q i n))

zero_plus : (n : ℕ) → 0 + n ≡ n
zero_plus n = omega arith

-- A write at a position that no sample holds yet, or that the newest holds.
pub samples_from-set_at :
    (q : SampleQueue) (n : ℕ) (x : Sample)
    → IsQueue q
    → n < length q.slots
    → samples_from (set_at q n x) 0 (suc n) ≡ samples_from q 0 n ++ (x ∷ [])
samples_from-set_at q n x v h =
    samples_from-snoc (set_at q n x) 0 n
    ∙ ap₂ (λ l y. l ++ (y ∷ []))
        (samples_from-ext (set_at q n x) q 0 0 n (λ k lt.
          sample_at-set_at_ne q n (0 + k) x v h (omega (arith, lt, h)) (omega (arith, lt))))
        (ap (sample_at (set_at q n x)) (zero_plus n)
          ∙ sample_at-set_at_self q n x (omega (arith, h)))

pub set_at-IsQueue : (q : SampleQueue) (i : ℕ) (x : Sample) → IsQueue q → IsQueue (set_at q i x)
unfolding set_at
set_at-IsQueue q i x v = omega (arith, v.head_le, v.count_le, length-set q.slots (index q i) x)

pub contents-push :
    (q : SampleQueue) (x : Sample)
    → IsQueue q
    → q.count < length q.slots
    → contents (push q x) ≡ contents q ++ (x ∷ [])
unfolding push sample_at set_at index
contents-push q x v h =
    samples_from-ext (push q x) (set_at q q.count x) 0 0 (suc q.count) (λ k lt. refl)
    ∙ samples_from-set_at q q.count x v h

pub push-IsQueue :
    (q : SampleQueue) (x : Sample) → IsQueue q → q.count < length q.slots → IsQueue (push q x)
unfolding push set_at
push-IsQueue q x v h =
    omega (arith, v.head_le, v.count_le, h, length-set q.slots (index q q.count) x)

samples_from-suc :
    (q : SampleQueue) (i n : ℕ)
    → samples_from q i (suc n) ≡ sample_at q i ∷ samples_from q (suc i) n
unfolding samples_from
samples_from-suc q i n = refl

count-pop : (q : SampleQueue) → (pop q).count ≡ q.count - 1
unfolding pop
count-pop q = refl

plus_shift : (h k : ℕ) → h + 1 + k ≡ h + (1 + k)
plus_shift h k = omega arith

sample_at-pop : (q : SampleQueue) (k : ℕ) → sample_at (pop q) (0 + k) ≡ sample_at q (1 + k)
unfolding sample_at pop index
sample_at-pop q k =
    ap (λ n. get_or q.slots n zero_sample)
      (ap (λ n. ((q.head + 1) % length q.slots + n) % length q.slots) (zero_plus k)
        ∙ mod-add-mod (q.head + 1) (length q.slots) k
        ∙ ap (λ n. n % length q.slots) (plus_shift q.head k))

pub contents-pop :
    (q : SampleQueue) → IsQueue q → 0 < q.count → contents q ≡ sample_at q 0 ∷ contents (pop q)
contents-pop q v h =
    ap (samples_from q 0) (omega (arith, h))
    ∙ samples_from-suc q 0 (q.count - 1)
    ∙ ap (◌∷◌ (sample_at q 0)) (
        samples_from-ext q (pop q) 1 0 (q.count - 1) (λ k lt. sym (sample_at-pop q k))
        ∙ ap (samples_from (pop q) 0) (sym (count-pop q)))

pub pop-IsQueue : (q : SampleQueue) → IsQueue q → 0 < q.count → IsQueue (pop q)
unfolding pop
pop-IsQueue q v h =
    let m = mod-lt (q.head + 1) {m = length q.slots} (omega (arith, h, v.count_le)) in
    omega (arith, m, v.count_le)
