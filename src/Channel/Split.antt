-- ===== src/Channel/Split.antt =====
-- src/session/channels/channel.c: the packets of a frame carry its bytes in order, and the head tells the
-- receiving window how many there are.
use native.Mathlib.Nat.{add-div_right, div-eq_of_lt}
use ihslib.Common.{
  ℕ, zero, suc, ◌+◌, ◌-◌, ◌/◌, ◌≤◌, ◌<◌, ◌≡◌, refl, ap, ◌∙◌, sym, true, false, Option, some, List,
  [], ◌∷◌, ◌++◌, length, take, drop, take-append-drop, length-drop, All, ◌==◌, arith, leb, add16,
  Bool-cases, inl, inr,
}
use ihslib.Packet.Header.{Header}
use ihslib.Window.Poll.{packets_count}
use ihslib.Channel.Fragments.{
  Admission, admission_accepted, is_admitted, fragmented_type, fragments_count, Fragmented,
  fragment_header, queue_fragments,
}

length-take-le : (n : ℕ) (xs : List ℕ) → length (take n xs) ≤ n
length-take-le zero xs = omega arith
length-take-le (suc n) [] = omega arith
length-take-le (suc n) (x ∷ xs) = omega (arith, length-take-le n xs)

-- The payloads one after the other.
abbrev pub joined : List (Header × List ℕ) → List ℕ
joined [] = []
joined ((h, bytes) ∷ ps) = bytes ++ joined ps

-- A number of packets with consecutive IDs and the fragment IDs from `i - 1` on.
abbrev pub IsRun : ℕ → ℕ → ℕ → List (Header × List ℕ) → Type 0
IsRun type i next [] = Unit
IsRun type i next ((h, bytes) ∷ ps) =
    (h.type ≡ type)
    × (h.fragment_id ≡ i - 1)
    × (h.packet_id ≡ next)
    × IsRun type (suc i) (add16 next 1) ps

rest_count : (limit n : ℕ) → 0 < limit → (n - 1) / limit ≡ (n - limit + limit - 1) / limit
rest_count limit n pos = elim (Bool-cases (leb n limit)) [
  | inl short ↦
      div-eq_of_lt (ground (arith, short, pos)) ∙ sym (div-eq_of_lt (ground (arith, short, pos)))
  | inr long ↦ ap (λ m. m / limit) (ground (arith, long))
]

count_next :
    (limit n : ℕ)
    → 0 < limit
    → 0 < n
    → (n + limit - 1) / limit ≡ suc ((n - limit + limit - 1) / limit)
count_next limit n pos some_bytes =
    let left : n + limit - 1 ≡ n - 1 + limit = omega (arith, some_bytes) in
    ap (λ m. m / limit) left ∙ add-div_right (n - 1) pos ∙ omega (arith, rest_count limit n pos)

module _ (limit count t : ℕ) (h : Header) (answer : ℕ → Admission) (pos : 0 < limit)
    (typed : fragmented_type h.type ≡ some t)
    (admitted : (i : ℕ) → is_admitted (answer i) ≡ true) where
  -- What the loop sends of a body behind the head.
  record Tail (i next : ℕ) (body : List ℕ) (o : Option Fragmented) : Type 0 where
    sent : Fragmented
    returned : o ≡ some sent
    accepted : sent.admission ≡ admission_accepted
    whole : joined sent.packets ≡ body
    number : length sent.packets ≡ (length body + limit - 1) / limit
    sizes : All (λ p. length p.1 ≤ limit) sent.packets
    run : IsRun t i next sent.packets

  queue_next :
      (fuel i next : ℕ) (body : List ℕ) (q : Fragmented)
      → (i == 0) ≡ false
      → (length body == 0) ≡ false
      → queue_fragments limit count h answer fuel (suc i) (drop limit body) (add16 next 1) ≡ some q
      → queue_fragments limit count h answer (suc fuel) i body next
        ≡ some (record q {
          packets = (fragment_header limit count h answer i t next, take limit body) ∷ q.packets;
        })
  unfolding queue_fragments
  queue_next fuel i next body q later some_bytes rest =
      rw (later, some_bytes, typed, admitted i, rest) refl

  tail_end :
      (i next : ℕ)
      → Tail i next [] (some (record { admission = admission_accepted; packets = []; next = next }))
  tail_end i next = record {
    sent = record { admission = admission_accepted; packets = []; next = next };
    returned = refl;
    accepted = refl;
    whole = refl;
    number = sym (div-eq_of_lt (omega (arith, pos)));
    sizes = tt;
    run = tt;
  }

  header_lem :
      (i next : ℕ)
      → (i == 0) ≡ false
      → let k = fragment_header limit count h answer i t next in
        (k.type ≡ t) × (k.fragment_id ≡ i - 1) × (k.packet_id ≡ next)
  unfolding fragment_header
  header_lem i next later = rw later (refl, refl, refl)

  tail-Tail :
      (fuel i next : ℕ) (body : List ℕ)
      → 0 < i
      → length body ≤ fuel
      → Tail i next body (queue_fragments limit count h answer fuel i body next)
  unfolding queue_fragments
  tail-Tail zero i next [] later enough = tail_end i next
  tail-Tail zero i next (x ∷ xs) later enough = absurd (omega arith)
  tail-Tail (suc fuel) i next [] later enough = tail_end i next
  tail-Tail (suc fuel) i next (x ∷ xs) later enough =
      let body = x ∷ xs in
      let r =
        tail-Tail fuel (suc i) (add16 next 1) (drop limit body) (omega arith)
          (omega (arith, length-drop limit body, pos)) in
      let not_head : (i == 0) ≡ false = ground (arith, later) in
      let facts = header_lem i next not_head in
      let q = r.sent in
      record {
        sent = record q {
          packets = (fragment_header limit count h answer i t next, take limit body) ∷ q.packets;
        };
        returned = queue_next fuel i next body q not_head (ground arith) r.returned;
        accepted = r.accepted;
        whole = ap (λ l. take limit body ++ l) r.whole ∙ take-append-drop limit body;
        number =
            ap suc (r.number ∙ ap (λ n. (n + limit - 1) / limit) (length-drop limit body))
            ∙ sym (count_next limit (length body) pos (omega arith));
        sizes = (length-take-le limit body, r.sizes);
        run = (facts.0, facts.1, facts.2, r.run);
      }

counts_lem :
    (limit n : ℕ)
    → 0 < limit
    → 0 < n
    → suc ((n - limit + limit - 1) / limit) ≡ fragments_count limit n
unfolding fragments_count
counts_lem limit n pos some_bytes = sym (count_next limit n pos some_bytes)

module _ (limit count : ℕ) (h : Header) (answer : ℕ → Admission) (next : ℕ) where
  head_header :
      let k = fragment_header limit count h answer 0 h.type next in
      (k.type ≡ h.type) × (k.packet_id ≡ h.packet_id)
  unfolding fragment_header
  head_header = (refl, refl)

  counted_lem :
      0 < count
      → count ≤ 32767
      → packets_count (fragment_header limit count h answer 0 h.type next) ≡ count
  unfolding fragment_header packets_count
  counted_lem pos few = ground (arith, pos, few)

  head_lem :
      (x : ℕ) (xs : List ℕ) (q : Fragmented)
      → is_admitted (answer 0) ≡ true
      → queue_fragments limit count h answer (length xs) 1 (drop limit (x ∷ xs)) next ≡ some q
      → queue_fragments limit count h answer (suc (length xs)) 0 (x ∷ xs) next
        ≡ some (record q {
          packets =
              (fragment_header limit count h answer 0 h.type next, take limit (x ∷ xs)) ∷ q.packets;
        })
  unfolding queue_fragments
  head_lem x xs q admitted rest =
      let some_bytes : (suc (length xs) == 0) ≡ false = ground arith in
      rw (some_bytes, admitted, rest) refl

-- All of a frame is sent: the head, and the packets behind it.
pub record Split (limit type next : ℕ) (h : Header) (body : List ℕ) (o : Option Fragmented)
    : Type 0 where
  pub sent : Fragmented
  pub head : Header × List ℕ
  pub others : List (Header × List ℕ)
  pub returned : o ≡ some sent
  pub accepted : sent.admission ≡ admission_accepted
  pub packets_eq : sent.packets ≡ head ∷ others
  pub whole : joined sent.packets ≡ body
  pub sizes : All (λ p. length p.1 ≤ limit) sent.packets
  pub head_type : head.0.type ≡ h.type
  pub head_id : head.0.packet_id ≡ h.packet_id
  pub counted : packets_count head.0 ≡ length sent.packets
  pub run : IsRun type 1 next others

-- A frame with bytes in it, of a reliable or unreliable type and of at most 32767 packets, whose packets
-- are all admitted, is sent in full: the payloads make up its bytes in order, none is larger than the
-- limit, the head has the frame's type and ID and the number of packets that the receiving window
-- reads from it, and the others have the fragment type and consecutive fragment and packet IDs.
pub queue_fragments-Split :
    (limit t next : ℕ) (h : Header) (answer : ℕ → Admission) (body : List ℕ)
    → 0 < limit
    → fragmented_type h.type ≡ some t
    → ((i : ℕ) → is_admitted (answer i) ≡ true)
    → 0 < length body
    → fragments_count limit (length body) ≤ 32767
    → Split limit t next h body (
        queue_fragments limit
          (fragments_count limit (length body))
          h
          answer
          (length body)
          0
          body
          next)
queue_fragments-Split limit t next h answer [] pos typed admitted some_bytes few =
    absurd (omega arith)
queue_fragments-Split limit t next h answer (x ∷ xs) pos typed admitted some_bytes few =
    let body = x ∷ xs in
    let count = fragments_count limit (length body) in
    let r =
      tail-Tail limit count t h answer pos typed admitted (length xs) 1 next (drop limit body)
        (omega arith) (omega (arith, length-drop limit body, pos)) in
    let q = r.sent in
    let k = fragment_header limit count h answer 0 h.type next in
    let packets = (k, take limit body) ∷ q.packets in
    let number : length packets ≡ count =
      ap suc (r.number ∙ ap (λ n. (n + limit - 1) / limit) (length-drop limit body))
      ∙ counts_lem limit (length body) pos (omega arith) in
    record {
      sent = record q { packets = packets };
      head = (k, take limit body);
      others = q.packets;
      returned = head_lem limit count h answer next x xs q (admitted 0) r.returned;
      accepted = r.accepted;
      packets_eq = refl;
      whole = ap (λ l. take limit body ++ l) r.whole ∙ take-append-drop limit body;
      sizes = (length-take-le limit body, r.sizes);
      head_type = (head_header limit count h answer next).0;
      head_id = (head_header limit count h answer next).1;
      counted =
          counted_lem limit count h answer next (omega (arith, number)) (omega (arith, few))
          ∙ sym number;
      run = r.run;
    }
