-- ===== src/Tests/Stats.antt =====
-- src/session/network_stats.c: collectors with few samples.
use ihslib.Common.{◌≡◌, refl, true, some, [], ◌∷◌, ◌++◌, arith}
use ihslib.Stats.Samples.{SampleQueue, zero_sample, samples_from}
use ihslib.Stats.Ring.{contents, IsQueue}
use ihslib.Stats.Expiry.{keep_recent}
use ihslib.Stats.Collectors.{PingStats, PacketStats, ping_record, packet_record}
use ihslib.Stats.Sums.{total, IsPingSum, ping_record_lem}
use ihslib.Stats.Packets.{lost_of, IsPacketSum, packet_record-IsPacketSum}

-- A full ring of two samples that has wrapped, its older sample out of the window at tick 300000.
abbrev wrapped : SampleQueue
wrapped = record {
  slots =
      record zero_sample { timestamp = 200000; value0 = 5 }
      ∷ record zero_sample { timestamp = 100; value0 = 3 }
      ∷ [];
  head = 1;
  count = 2;
}

wrapped-IsQueue : IsQueue wrapped
wrapped-IsQueue = omega arith

abbrev pinged : PingStats
pinged = record { queue = wrapped; sum = 8 }

pinged-IsPingSum : IsPingSum (contents pinged.queue) pinged.sum
unfolding samples_from total
pinged-IsPingSum = record { words = (omega arith, (omega arith, tt)); sum_eq = refl }

ping_record_lem_example :
    (t : PingStats) × (ping_record true zero_sample pinged 40 300000 ≡ some t)
    × IsQueue t.queue
    × (contents t.queue
        ≡ keep_recent 300000 (contents pinged.queue)
          ++ (record zero_sample { timestamp = 300000; value0 = 40 } ∷ []))
    × IsPingSum (contents t.queue) t.sum
ping_record_lem_example =
    ping_record_lem zero_sample pinged 40 300000 wrapped-IsQueue pinged-IsPingSum (omega arith)

-- The window then holds the newer sample and the new one.
ping_window :
    keep_recent 300000 (contents wrapped)
    ≡ record zero_sample { timestamp = 200000; value0 = 5 } ∷ []
unfolding keep_recent samples_from
ping_window = refl

abbrev counted : PacketStats
counted = record { queue = wrapped; total = 8; lost = 0 }

counted-IsPacketSum : IsPacketSum (contents counted.queue) (counted.total, counted.lost)
unfolding samples_from total lost_of
counted-IsPacketSum = record {
  words = (omega arith, (omega arith, tt));
  total_eq = refl;
  lost_eq = refl;
}

packet_record-IsPacketSum_example :
    (t : PacketStats) × (packet_record true zero_sample counted 300000 2 true ≡ some t)
    × IsQueue t.queue
    × IsPacketSum (contents t.queue) (t.total, t.lost)
packet_record-IsPacketSum_example =
    packet_record-IsPacketSum zero_sample counted 300000 2 true wrapped-IsQueue counted-IsPacketSum
      (omega arith)
