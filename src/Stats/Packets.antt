-- ===== src/Stats/Packets.antt =====
-- src/session/network_stats.c: the counts of received and lost packets in the window.
use ihslib.Common.{
  ℕ, ◌-◌, ◌^◌, ◌<◌, ◌≡◌, refl, sym, ap, subst, ◌∙◌, Bool, true, false, ◌&&◌, Bool-cases, inl, inr,
  some, List, [], ◌∷◌, ◌++◌, All, All-append, ◌==◌, ==_iff, if◌then◌else◌, add32, sub32, arith,
}
use ihslib.Stats.Samples.{Sample, SampleQueue, zero_sample, sample_at, set_at, samples_from, push}
use ihslib.Stats.Ring.{
  contents, IsQueue, contents-push, push-IsQueue, samples_from-snoc, samples_from-set_at,
  set_at-IsQueue,
}
use ihslib.Stats.Collectors.{
  PacketStats, packet_record, flag, forget_packets, count_packets, add_to_newest, is_newest,
}
use ihslib.Stats.Sums.{total, total-append, total-remove, total-lt, slide-Slid}

-- A sample's part of the count of lost packets.
unfoldable pub lost_of : Sample → ℕ
lost_of x = if x.value1 == 0 then 0 else x.value0

-- The collector's counts are those of the samples in its window.
pub record IsPacketSum (xs : List Sample) (sums : ℕ × ℕ) : Type 0 where
  pub words : All (λ x. x.value0 < 2 ^ 32) xs
  pub total_eq : sums.0 ≡ total (λ x. x.value0) xs
  pub lost_eq : sums.1 ≡ total lost_of xs

lost_of-lt : (x : Sample) → x.value0 < 2 ^ 32 → lost_of x < 2 ^ 32
unfolding lost_of
lost_of-lt x h = ground (arith, h)

remove_lost :
    (x : Sample) (xs : List Sample) (lost : ℕ)
    → x.value0 < 2 ^ 32
    → lost ≡ total lost_of (x ∷ xs)
    → (if x.value1 == 0 then lost else sub32 lost x.value0) ≡ total lost_of xs
unfolding total lost_of
remove_lost x xs lost h e = ground (arith, h, e, total-lt lost_of xs)

IsPacketSum-remove :
    (x : Sample) (xs : List Sample) (sums : ℕ × ℕ)
    → IsPacketSum (x ∷ xs) sums
    → IsPacketSum xs (forget_packets x sums)
unfolding forget_packets
IsPacketSum-remove x xs sums p = record {
  words = p.words.1;
  total_eq = total-remove (λ x. x.value0) x xs sums.0 p.words.0 p.total_eq;
  lost_eq = remove_lost x xs sums.1 p.words.0 p.lost_eq;
}

-- A new sample at the end.
IsPacketSum-append :
    (xs : List Sample) (now n : ℕ) (is_lost : Bool) (sums : ℕ × ℕ)
    → n < 2 ^ 32
    → IsPacketSum xs sums
    → IsPacketSum
        (xs ++ (record zero_sample { timestamp = now; value0 = n; value1 = flag is_lost } ∷ []))
        (add32 sums.0 n, if is_lost then add32 sums.1 n else sums.1)
unfolding lost_of
IsPacketSum-append xs now n is_lost sums h p =
    let x : Sample = record zero_sample { timestamp = now; value0 = n; value1 = flag is_lost } in
    record {
      words = All-append (λ y. y.value0 < 2 ^ 32) xs (x ∷ []) p.words (h, tt);
      total_eq = omega (arith, p.total_eq, total-append (λ y. y.value0) xs x);
      lost_eq = lost_append is_lost (total-append lost_of xs x);
    }
  where
    lost_append :
        (b : Bool)
        → total lost_of
            (xs ++ (record zero_sample { timestamp = now; value0 = n; value1 = flag b } ∷ []))
          ≡ add32 (total lost_of xs) (if flag b == 0 then 0 else n)
        → (if b then add32 sums.1 n else sums.1)
          ≡ total lost_of
              (xs ++ (record zero_sample { timestamp = now; value0 = n; value1 = flag b } ∷ []))
    lost_append true e = omega (arith, e, p.lost_eq)
    lost_append false e = omega (arith, e, p.lost_eq, total-lt lost_of xs)

All-append_left : (P : Sample → Type 0) (xs ys : List Sample) → All P (xs ++ ys) → All P xs
All-append_left P [] ys h = tt
All-append_left P (x ∷ xs) ys h = (h.0, All-append_left P xs ys h.1)

-- More packets in the sample at the end.
IsPacketSum-add :
    (xs : List Sample) (y : Sample) (n : ℕ) (is_lost : Bool) (sums : ℕ × ℕ)
    → y.value1 ≡ flag is_lost
    → IsPacketSum (xs ++ (y ∷ [])) sums
    → IsPacketSum
        (xs ++ (record y { value0 = add32 y.value0 n } ∷ []))
        (add32 sums.0 n, if is_lost then add32 sums.1 n else sums.1)
unfolding lost_of
IsPacketSum-add xs y n is_lost sums e p =
    let y' : Sample = record y { value0 = add32 y.value0 n } in
    record {
      words =
          All-append (λ z. z.value0 < 2 ^ 32) xs (y' ∷ [])
            (All-append_left (λ z. z.value0 < 2 ^ 32) xs (y ∷ []) p.words) (omega arith, tt);
      total_eq = omega (
        arith,
        p.total_eq,
        total-append (λ z. z.value0) xs y,
        total-append (λ z. z.value0) xs y',
      );
      lost_eq =
          lost_add is_lost e (p.lost_eq ∙ total-append lost_of xs y) (total-append lost_of xs y');
    }
  where
    lost_add :
        (b : Bool)
        → y.value1 ≡ flag b
        → sums.1 ≡ add32 (total lost_of xs) (if y.value1 == 0 then 0 else y.value0)
        → total lost_of (xs ++ (record y { value0 = add32 y.value0 n } ∷ []))
          ≡ add32 (total lost_of xs) (if y.value1 == 0 then 0 else add32 y.value0 n)
        → (if b then add32 sums.1 n else sums.1)
          ≡ total lost_of (xs ++ (record y { value0 = add32 y.value0 n } ∷ []))
    lost_add true f g k = ground (arith, f, g, k)
    lost_add false f g k = ground (arith, f, g, k)

-- What an addition to the newest sample does to the list.
contents-add_to_newest :
    (q : SampleQueue) (n : ℕ)
    → IsQueue q
    → 0 < q.count
    → (xs : List Sample) × (contents q ≡ xs ++ (sample_at q (q.count - 1) ∷ []))
      × (contents (add_to_newest q n)
          ≡ xs
            ++ (record (sample_at q (q.count - 1)) {
              value0 = add32 (sample_at q (q.count - 1)).value0 n;
            }
                ∷ []))
unfolding add_to_newest
contents-add_to_newest q n v pos =
    let m = q.count - 1 in
    let x : Sample = record (sample_at q m) { value0 = add32 (sample_at q m).value0 n } in
    (
      samples_from q 0 m,
      ap (samples_from q 0) (omega (arith, pos))
          ∙ samples_from-snoc q 0 m
          ∙ ap (λ k. samples_from q 0 m ++ (sample_at q k ∷ [])) (omega arith),
      ap (samples_from (set_at q m x) 0) (count-set_at q m x ∙ omega (arith, pos))
          ∙ samples_from-set_at q m x v (omega (arith, pos, v.count_le)),
    )
  where
    count-set_at : (r : SampleQueue) (k : ℕ) (x : Sample) → (set_at r k x).count ≡ r.count
    count-set_at r k x = refl

newest_pos : (q : SampleQueue) (now : ℕ) → is_newest q now ≡ true → 0 < q.count
unfolding is_newest
newest_pos q now h = ground (arith, ==_iff q.count 0)

add_to_newest-IsQueue : (q : SampleQueue) (n : ℕ) → IsQueue q → IsQueue (add_to_newest q n)
unfolding add_to_newest
add_to_newest-IsQueue q n v = set_at-IsQueue q (q.count - 1) _ v

both_true : (a b : Bool) → a && b ≡ true → (a ≡ true) × (b ≡ true)
both_true true true h = (refl, refl)
both_true true false h = cc
both_true false b h = cc

-- On a valid ring whose samples make up the counts, recording received or lost packets, where
-- memory is given, keeps the counts those of the samples in the window.
pub packet_record-IsPacketSum :
    (junk : Sample) (s : PacketStats) (now n : ℕ) (is_lost : Bool)
    → IsQueue s.queue
    → IsPacketSum (contents s.queue) (s.total, s.lost)
    → n < 2 ^ 32
    → (t : PacketStats) × (packet_record true junk s now n is_lost ≡ some t)
      × IsQueue t.queue
      × IsPacketSum (contents t.queue) (t.total, t.lost)
unfolding packet_record count_packets
packet_record-IsPacketSum junk s now n is_lost v p h =
    let q = s.queue in
    let newest = sample_at q (q.count - 1) in
    elim (Bool-cases (is_newest q now && newest.value1 == flag is_lost)) [
      | inl same ↦
          let (fresh, flagged) = both_true _ _ same in
          let held = contents-add_to_newest q n v (newest_pos q now fresh) in
          (
            count_packets n is_lost (add_to_newest q n) (s.total, s.lost),
            rw (same, packet_record) refl,
            add_to_newest-IsQueue q n v,
            subst (λ l. IsPacketSum l (add32 s.total n, if is_lost then add32 s.lost n else s.lost))
                (sym held.2)
                (IsPacketSum-add held.0 newest n is_lost (s.total, s.lost)
                  ((==_iff newest.value1 (flag is_lost)).0 flagged)
                  (subst (λ l. IsPacketSum l (s.total, s.lost)) held.1 p)),
          )
      | inr other ↦
          let (r, slid, f) =
            slide-Slid IsPacketSum now forget_packets IsPacketSum-remove junk q (s.total, s.lost) v
              p in
          let x : Sample = record zero_sample {
            timestamp = now;
            value0 = n;
            value1 = flag is_lost;
          } in
          (
            count_packets n is_lost (push r.0 x) r.1,
            rw (other, slid, packet_record) refl,
            push-IsQueue r.0 x f.valid f.room,
            subst (λ l. IsPacketSum l (add32 r.1.0 n, if is_lost then add32 r.1.1 n else r.1.1))
                (sym (contents-push r.0 x f.valid f.room))
                (IsPacketSum-append (contents r.0) now n is_lost r.1 h f.sums),
          )
    ]
