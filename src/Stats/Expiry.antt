-- ===== src/Stats/Expiry.antt =====
-- src/session/network_stats.c: the removal of expired samples, on the list of the ring's samples.
use ihslib.Common.{
  ℕ, zero, suc, ◌-◌, ◌≤◌, ◌<◌, ◌≡◌, refl, sym, ap, subst, ◌∙◌, true, false, Bool-cases, inl, inr,
  List, [], ◌∷◌, length, ltb, ==_iff, if◌then◌else◌, sub32, arith,
}
use ihslib.Stats.Samples.{
  Sample, SampleQueue, window_ticks, sample_at, samples_from, is_expired, pop, expire,
}
use ihslib.Stats.Ring.{contents, IsQueue, contents-pop, pop-IsQueue}

-- The list without the samples at its front that are older than the window.
unfoldable pub keep_recent : ℕ → List Sample → List Sample
keep_recent now [] = []
keep_recent now (x ∷ xs) =
    if ltb window_ticks (sub32 now x.timestamp) then keep_recent now xs else x ∷ xs

-- What the removal leaves of a ring and of the sums that `P` says are those of its samples.
pub record Expired {ℓ κ} {S : Type ℓ} (P : List Sample → S → Type κ) (now : ℕ) (q : SampleQueue)
    (r : SampleQueue × S) : Type κ where
  pub valid : IsQueue r.0
  pub contents_eq : contents r.0 ≡ keep_recent now (contents q)
  pub sums : P (contents r.0) r.1
  pub count_le : r.0.count ≤ q.count
  pub capacity_eq : length r.0.slots ≡ length q.slots

keep_recent-kept :
    (q : SampleQueue) (now n : ℕ)
    → q.count ≡ n
    → is_expired q now ≡ false
    → keep_recent now (samples_from q 0 n) ≡ samples_from q 0 n
unfolding is_expired samples_from keep_recent
keep_recent-kept q now zero e h = refl
keep_recent-kept q now (suc n) e h = ground (arith, ==_iff q.count 0)

expired_pos : (q : SampleQueue) (now : ℕ) → is_expired q now ≡ true → 0 < q.count
unfolding is_expired
expired_pos q now h = ground (arith, ==_iff q.count 0)

none_expired : (q : SampleQueue) (now : ℕ) → q.count ≤ 0 → is_expired q now ≡ false
unfolding is_expired
none_expired q now h = ground (arith, ==_iff q.count 0)

keep_recent-expired :
    (q : SampleQueue) (now : ℕ) (xs : List Sample)
    → is_expired q now ≡ true
    → keep_recent now (sample_at q 0 ∷ xs) ≡ keep_recent now xs
unfolding is_expired keep_recent
keep_recent-expired q now xs h = ground (arith, ==_iff q.count 0)

pop_facts : (q : SampleQueue) → ((pop q).count ≡ q.count - 1) × ((pop q).slots ≡ q.slots)
unfolding pop
pop_facts q = (refl, refl)

module _ {ℓ κ} {S : Type ℓ} (P : List Sample → S → Type κ) (now : ℕ) (remove : Sample → S → S)
    (step : (x : Sample) (xs : List Sample) (s : S) → P (x ∷ xs) s → P xs (remove x s)) where
  pub expire-Expired :
      (fuel : ℕ) (q : SampleQueue) (s : S)
      → IsQueue q
      → q.count ≤ fuel
      → P (contents q) s
      → Expired P now q (expire fuel now remove q s)
  unfolding expire
  expire-Expired zero q s v h p = record {
    valid = v;
    contents_eq = sym (keep_recent-kept q now q.count refl (none_expired q now h));
    sums = p;
    count_le = omega arith;
    capacity_eq = refl;
  }
  expire-Expired (suc fuel) q s v h p = elim (Bool-cases (is_expired q now)) [
    | inl old ↦
        let pos = expired_pos q now old in
        let split = contents-pop q v pos in
        let rest =
          expire-Expired fuel (pop q) (remove (sample_at q 0) s) (pop-IsQueue q v pos)
            (omega (arith, h, (pop_facts q).0))
            (step (sample_at q 0) (contents (pop q)) s (subst (λ l. P l s) split p)) in
        rw old (record {
          valid = rest.valid;
          contents_eq =
              rest.contents_eq
              ∙ sym (ap (keep_recent now) split ∙ keep_recent-expired q now (contents (pop q)) old);
          sums = rest.sums;
          count_le = omega (arith, rest.count_le, (pop_facts q).0);
          capacity_eq = rest.capacity_eq ∙ ap length (pop_facts q).1;
        })
    | inr recent ↦ rw recent (record {
      valid = v;
      contents_eq = sym (keep_recent-kept q now q.count refl recent);
      sums = p;
      count_le = omega arith;
      capacity_eq = refl;
    })
  ]
