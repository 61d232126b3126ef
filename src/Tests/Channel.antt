-- ===== src/Tests/Channel.antt =====
-- src/session/channels/channel.c: seven bytes in packets of three.
use ihslib.Common.{ℕ, ◌≡◌, refl, true, some, List, [], ◌∷◌, arith}
use ihslib.Channel.Fragments.{
  Admission, admission_accepted, is_admitted, fragmented_type, fragments_count, queue_fragments,
}
use ihslib.Channel.Split.{Split, queue_fragments-Split}
use ihslib.Tests.Retransmission.{reliable_header}

abbrev always : ℕ → Admission
always i = admission_accepted

always_admitted : (i : ℕ) → is_admitted (always i) ≡ true
unfolding is_admitted
always_admitted i = refl

abbrev seven_bytes : List ℕ
seven_bytes = 1 ∷ 2 ∷ 3 ∷ 4 ∷ 5 ∷ 6 ∷ 7 ∷ []

reliable_fragmented : fragmented_type 5 ≡ some 6
unfolding fragmented_type
reliable_fragmented = refl

three_packets : fragments_count 3 7 ≡ 3
unfolding fragments_count
three_packets = refl

queue_fragments-Split_example :
    Split 3 6 65535
      (reliable_header 65534)
      seven_bytes
      (queue_fragments 3 (fragments_count 3 7) (reliable_header 65534) always 7 0 seven_bytes 65535)
queue_fragments-Split_example =
    queue_fragments-Split 3 6 65535 (reliable_header 65534) always seven_bytes (omega arith)
      reliable_fragmented always_admitted (omega arith) (omega (arith, three_packets))
