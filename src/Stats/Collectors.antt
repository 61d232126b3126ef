-- ===== src/Stats/Collectors.antt =====
-- src/session/network_stats.c: what the collectors record. Their floating-point results (`bitrate`,
-- `link`, `milliseconds`), which nothing else in the collectors reads, are left out. None stands for
-- the result false, after which the collector is as it was.
use ihslib.Common.{
  ℕ, ◌+◌, ◌-◌, ◌^◌, Bool, true, false, not, ◌&&◌, Option, none, some, ◌==◌, if◌then◌else◌, add32,
  sub32, add64, sub64, is_negative32, is_positive32,
}
use ihslib.Stats.Samples.{
  Sample, SampleQueue, zero_sample, sample_at, set_at, reserve, push, expire,
}

-- `IHS_NetworkPingStats`.
pub record PingStats : Type 0 where
  pub queue : SampleQueue
  pub sum : ℕ

-- `IHS_NetworkPacketStats`.
pub record PacketStats : Type 0 where
  pub queue : SampleQueue
  pub total : ℕ
  pub lost : ℕ

-- `IHS_NetworkBitrateStats`.
pub record BitrateStats : Type 0 where
  pub queue : SampleQueue
  pub bytes : ℕ

-- `IHS_NetworkVideoStats`, with the four `totals`.
pub record VideoStats : Type 0 where
  pub queue : SampleQueue
  pub frame : ℕ
  pub first_sent : ℕ
  pub last_received : ℕ
  pub frame_bytes : ℕ
  pub total0 : ℕ
  pub total1 : ℕ
  pub total2 : ℕ
  pub total3 : ℕ

-- `(uint64_t)(int64_t)(int32_t) x`.
unfoldable pub sign_extend : ℕ → ℕ
sign_extend x = if is_negative32 x then x + (2 ^ 64 - 2 ^ 32) else x

abbrev pub flag : Bool → ℕ
flag true = 1
flag false = 0

-- Whether the newest sample is of a time.
unfoldable pub is_newest : SampleQueue → ℕ → Bool
unfolding sample_at
is_newest q now = not (q.count == 0) && (sample_at q (q.count - 1)).timestamp == now

-- The newest sample with more in its first value.
unfoldable pub add_to_newest : SampleQueue → ℕ → SampleQueue
unfolding sample_at set_at
add_to_newest q n =
    let newest = sample_at q (q.count - 1) in
    set_at q (q.count - 1) (record newest { value0 = add32 newest.value0 n })

unfoldable pub forget_packets : Sample → ℕ × ℕ → ℕ × ℕ
forget_packets x (total, lost) =
    (sub32 total x.value0, if x.value1 == 0 then lost else sub32 lost x.value0)

unfoldable pub count_packets : ℕ → Bool → SampleQueue → ℕ × ℕ → PacketStats
count_packets n is_lost q (total, lost) = record {
  queue = q;
  total = add32 total n;
  lost = if is_lost then add32 lost n else lost;
}

-- The condition on which a finished frame becomes a sample.
unfoldable pub is_measured : VideoStats → ℕ → Bool
is_measured s now =
    not (s.first_sent == 0)
    && (not (s.frame_bytes == 0)
        && (is_positive32 (sub32 s.last_received s.first_sent)
            && not (is_negative32 (sub32 now s.last_received))))

unfoldable pub forget_frame : Sample → VideoStats → VideoStats
forget_frame x s = record s {
  total0 = sub32 s.total0 x.value0;
  total1 = sub32 s.total1 x.value1;
  total2 = sub32 s.total2 x.value2;
  total3 = sub32 s.total3 x.value3;
}

unfoldable pub frame_sample : VideoStats → ℕ → ℕ → ℕ → Sample
frame_sample s now begin finish = record {
  timestamp = s.last_received;
  value0 = sub32 finish begin;
  value1 = sub32 s.last_received s.first_sent;
  value2 = sub32 now s.last_received;
  value3 = s.frame_bytes;
}

unfoldable pub count_frame : SampleQueue → Sample → VideoStats → VideoStats
count_frame q x s = record s {
  queue = push q x;
  total0 = add32 s.total0 x.value0;
  total1 = add32 s.total1 x.value1;
  total2 = add32 s.total2 x.value2;
  total3 = add32 s.total3 x.value3;
}

unfoldable pub restart_frame : VideoStats → ℕ → ℕ → VideoStats
restart_frame s now frame = record s { frame = frame; first_sent = now; frame_bytes = 0 }

unfoldable pub receive_bytes : ℕ → ℕ → VideoStats → VideoStats
receive_bytes finish n s = record s { last_received = finish; frame_bytes = add32 s.frame_bytes n }

module _ (allocated : Bool) (junk : Sample) where
  -- The queue with room for one more and without its expired samples, and the sums without them.
  unfoldable pub slide {ℓ} :
      {S : Type ℓ} → ℕ → (Sample → S → S) → SampleQueue → S → Option (SampleQueue × S)
  slide now remove q s = elim (reserve allocated junk q) [
    | none ↦ none
    | some r ↦ some (expire r.count now remove r s)
  ]

  -- `IHS_NetworkPingRecord`.
  unfoldable pub ping_record : PingStats → ℕ → ℕ → Option PingStats
  ping_record s ticks now = elim (slide now (λ x sum. sub32 sum x.value0) s.queue s.sum) [
    | none ↦ none
    | some (q, sum) ↦ some (record {
      queue = push q (record zero_sample { timestamp = now; value0 = ticks });
      sum = add32 sum ticks;
    })
  ]

  -- `IHS_NetworkPacketRecord`; the count is the word that its `int32_t` is added as.
  unfoldable pub packet_record : PacketStats → ℕ → ℕ → Bool → Option PacketStats
  packet_record s now n is_lost =
      let q = s.queue in
      if is_newest q now && (sample_at q (q.count - 1)).value1 == flag is_lost
      then some (count_packets n is_lost (add_to_newest q n) (s.total, s.lost))
      else elim (slide now forget_packets q (s.total, s.lost)) [
        | none ↦ none
        | some (r, sums) ↦ some (
            count_packets n is_lost
              (push r (record zero_sample { timestamp = now; value0 = n; value1 = flag is_lost }))
              sums)
      ]

  -- `IHS_NetworkBitrateRecord`.
  unfoldable pub bitrate_record : BitrateStats → ℕ → ℕ → Option BitrateStats
  unfolding sign_extend
  bitrate_record s now n =
      let q = s.queue in
      if is_newest q now
      then some (record { queue = add_to_newest q n; bytes = add64 s.bytes (sign_extend n) })
      else elim (slide now (λ x bytes. sub64 bytes (sign_extend x.value0)) q s.bytes) [
        | none ↦ none
        | some (r, bytes) ↦ some (record {
          queue = push r (record zero_sample { timestamp = now; value0 = n });
          bytes = add64 bytes (sign_extend n);
        })
      ]

  unfoldable pub finish_frame : VideoStats → ℕ → ℕ → ℕ → Option VideoStats
  finish_frame s now begin finish =
      if is_measured s now
      then elim (slide s.last_received forget_frame s.queue s) [
        | none ↦ none
        | some (q, t) ↦ some (count_frame q (frame_sample s now begin finish) t)
      ]
      else some s

  -- `IHS_NetworkVideoRecord`: `begin` and `finish` are the times of the reception.
  unfoldable pub video_record : VideoStats → ℕ → ℕ → ℕ → ℕ → ℕ → Option VideoStats
  video_record s now begin finish frame n =
      if s.frame == frame
      then some (receive_bytes finish n s)
      else elim (finish_frame s now begin finish) [
        | none ↦ none
        | some t ↦ some (receive_bytes finish n (restart_frame t now frame))
      ]
