-- ===== src/Stats/Sums.antt =====
-- src/session/network_stats.c: the collectors' running sums and the samples in their window.
use ihslib.Common.{
  ℕ, ◌^◌, ◌<◌, ◌≡◌, refl, sym, ap, subst, ◌∙◌, true, some, List, [], ◌∷◌, ◌++◌, All, All-append,
  length, add32, sub32, arith,
}
use ihslib.Stats.Samples.{Sample, SampleQueue, zero_sample, push, expire}
use ihslib.Stats.Ring.{contents, IsQueue, contents-push, push-IsQueue}
use ihslib.Stats.Growth.{reserve-Reserved}
use ihslib.Stats.Expiry.{keep_recent, expire-Expired}
use ihslib.Stats.Collectors.{PingStats, slide, ping_record}

-- The sum of a value over samples, as a 32-bit word.
unfoldable pub total : (Sample → ℕ) → List Sample → ℕ
total f [] = 0
total f (x ∷ xs) = add32 (f x) (total f xs)

pub total-append :
    (f : Sample → ℕ) (xs : List Sample) (x : Sample)
    → total f (xs ++ (x ∷ [])) ≡ add32 (total f xs) (f x)
unfolding total
total-append f [] x = omega arith
total-append f (y ∷ xs) x = omega (arith, total-append f xs x)

pub total-lt : (f : Sample → ℕ) (xs : List Sample) → total f xs < 2 ^ 32
unfolding total
total-lt f [] = omega arith
total-lt f (x ∷ xs) = omega arith

-- Taking a sample's value out of a sum undoes its part.
pub total-remove :
    (f : Sample → ℕ) (x : Sample) (xs : List Sample) (s : ℕ)
    → f x < 2 ^ 32
    → s ≡ total f (x ∷ xs)
    → sub32 s (f x) ≡ total f xs
unfolding total
total-remove f x xs s h e = omega (arith, total-lt f xs, h, e)

-- A queue from which the expired samples are gone, with room for one more.
pub record Slid {ℓ κ} {S : Type ℓ} (P : List Sample → S → Type κ) (now : ℕ) (q : SampleQueue)
    (r : SampleQueue × S) : Type κ where
  pub valid : IsQueue r.0
  pub contents_eq : contents r.0 ≡ keep_recent now (contents q)
  pub sums : P (contents r.0) r.1
  pub room : r.0.count < length r.0.slots

module _ {ℓ κ} {S : Type ℓ} (P : List Sample → S → Type κ) (now : ℕ) (remove : Sample → S → S)
    (step : (x : Sample) (xs : List Sample) (s : S) → P (x ∷ xs) s → P xs (remove x s))
    (junk : Sample) where
  pub slide-Slid :
      (q : SampleQueue) (s : S)
      → IsQueue q
      → P (contents q) s
      → (r : SampleQueue × S) × (slide true junk now remove q s ≡ some r) × Slid P now q r
  unfolding slide
  slide-Slid q s v p =
      let (r, made, res) = reserve-Reserved junk q v in
      let e =
        expire-Expired P now remove step r.count r s res.valid (omega arith)
          (subst (λ l. P l s) (sym res.contents_eq) p) in
      (
        expire r.count now remove r s,
        rw (made, slide) refl,
        record {
          valid = e.valid;
          contents_eq = e.contents_eq ∙ ap (keep_recent now) res.contents_eq;
          sums = e.sums;
          room = omega (arith, e.count_le, e.capacity_eq, res.room);
        },
      )

-- The ping collector's sum is that of the samples in its window.
pub record IsPingSum (xs : List Sample) (sum : ℕ) : Type 0 where
  pub words : All (λ x. x.value0 < 2 ^ 32) xs
  pub sum_eq : sum ≡ total (λ x. x.value0) xs

IsPingSum-remove :
    (x : Sample) (xs : List Sample) (sum : ℕ)
    → IsPingSum (x ∷ xs) sum
    → IsPingSum xs (sub32 sum x.value0)
IsPingSum-remove x xs sum p = record {
  words = p.words.1;
  sum_eq = total-remove (λ x. x.value0) x xs sum p.words.0 p.sum_eq;
}

IsPingSum-append :
    (xs : List Sample) (x : Sample) (sum : ℕ)
    → x.value0 < 2 ^ 32
    → IsPingSum xs sum
    → IsPingSum (xs ++ (x ∷ [])) (add32 sum x.value0)
IsPingSum-append xs x sum h p = record {
  words = All-append (λ x. x.value0 < 2 ^ 32) xs (x ∷ []) p.words (h, tt);
  sum_eq = omega (arith, p.sum_eq, total-append (λ x. x.value0) xs x);
}

-- On a valid ring whose samples make up the sum, recording a round trip, where memory is given,
-- takes from the window the samples at its front that are older than three seconds, adds the new
-- one at the end, and leaves the sum that of the samples then in the window.
pub ping_record_lem :
    (junk : Sample) (s : PingStats) (ticks now : ℕ)
    → IsQueue s.queue
    → IsPingSum (contents s.queue) s.sum
    → ticks < 2 ^ 32
    → (t : PingStats) × (ping_record true junk s ticks now ≡ some t)
      × IsQueue t.queue
      × (contents t.queue
          ≡ keep_recent now (contents s.queue)
            ++ (record zero_sample { timestamp = now; value0 = ticks } ∷ []))
      × IsPingSum (contents t.queue) t.sum
unfolding ping_record
ping_record_lem junk s ticks now v p h =
    let (r, slid, f) =
      slide-Slid IsPingSum now (λ x sum. sub32 sum x.value0) IsPingSum-remove junk s.queue s.sum v
        p in
    let x : Sample = record zero_sample { timestamp = now; value0 = ticks } in
    let held = contents-push r.0 x f.valid f.room in
    (
      record { queue = push r.0 x; sum = add32 r.1 ticks },
      rw (slid, ping_record) refl,
      push-IsQueue r.0 x f.valid f.room,
      held ∙ ap (λ l. l ++ (x ∷ [])) f.contents_eq,
      subst (λ l. IsPingSum l (add32 r.1 ticks)) (sym held)
          (IsPingSum-append (contents r.0) x r.1 h f.sums),
    )
