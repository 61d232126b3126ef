-- ===== src/Retransmission/Order.antt =====
-- src/session/retransmission.c: the order in which a scan hands packets to the socket.
use ihslib.Common.{
  ℕ, ◌+◌, ◌≡◌, ◌≢◌, Bool, true, false, not, Option, List, [], ◌∷◌, ◌++◌, ◌==◌, if◌then◌else◌, arith,
  inl, inr, Bool-cases, All,
}
use ihslib.Retransmission.State.{Retransmission}
use ihslib.Retransmission.Scan.{
  Attempt, Turn, Scan, Sending, eligible, finish_attempt, attempt, attempts, process, apply_all,
}

abbrev pub channel_of : Sending → ℕ
channel_of x = x.packet.header.channel_id

-- Behind a packet that the socket refused, no packet of its channel was handed over.
abbrev pub IsHeadOfLine : List Sending → Type 0
IsHeadOfLine [] = Unit
IsHeadOfLine (x ∷ xs) =
    (x.sent ≡ false → All (λ y. channel_of y ≢ channel_of x) xs) × IsHeadOfLine xs

All-snoc :
    (P : Sending → Type 0) (xs : List Sending) (y : Sending)
    → All P xs
    → P y
    → All P (xs ++ (y ∷ []))
All-snoc P [] y h k = (k, tt)
All-snoc P (x ∷ xs) y h k = (h.0, All-snoc P xs y h.1 k)

IsHeadOfLine-snoc :
    (xs : List Sending) (y : Sending)
    → IsHeadOfLine xs
    → All (λ x. x.sent ≡ false → channel_of y ≢ channel_of x) xs
    → IsHeadOfLine (xs ++ (y ∷ []))
IsHeadOfLine-snoc [] y h k = ((λ e. tt), tt)
IsHeadOfLine-snoc (x ∷ xs) y h k =
    ((λ e. All-snoc _ xs y (h.0 e) (k.0 e)), IsHeadOfLine-snoc xs y h.1 k.1)

-- The scan remembers each channel on which the socket refused.
abbrev Remembers : (ℕ → Bool) → List Sending → Type 0
Remembers failed = All (λ x. x.sent ≡ false → failed (channel_of x) ≡ true)

record IsOrdered (s : Scan) : Type 0 where
  ordered : IsHeadOfLine s.log
  remembered : Remembers s.failed s.log

Remembers-update :
    (failed : ℕ → Bool) (c : ℕ) (sent : Bool) (xs : List Sending)
    → failed c ≡ false
    → Remembers failed xs
    → Remembers (λ d. if d == c then not sent else failed d) xs
Remembers-update failed c sent [] e h = tt
Remembers-update failed c sent (x ∷ xs) e h = (one, Remembers-update failed c sent xs e h.1)
  where
    one : x.sent ≡ false → (if channel_of x == c then not sent else failed (channel_of x)) ≡ true
    one refused = elim (Bool-cases (channel_of x == c)) [
      | inl same ↦ absurd (clash (ground arith) (h.0 refused))
      | inr other ↦ rw other (h.0 refused)
    ]
      where
        clash : channel_of x ≡ c → failed (channel_of x) ≡ true → ⊥
        clash p q = cc

passes :
    (failed : ℕ → Bool) (c : ℕ) (xs : List Sending)
    → failed c ≡ false
    → Remembers failed xs
    → All (λ x. x.sent ≡ false → c ≢ channel_of x) xs
passes failed c [] e h = tt
passes failed c (x ∷ xs) e h = (one, passes failed c xs e h.1)
  where
    one : x.sent ≡ false → c ≢ channel_of x
    one refused p = let q = h.0 refused in cc

eligible-passes :
    (r : Retransmission) (failed : ℕ → Bool) (a : Attempt)
    → eligible r failed a ≡ true
    → failed a.packet.header.channel_id ≡ false
unfolding eligible
eligible-passes r failed a e = ground arith

attempt-IsOrdered :
    (now : ℕ) (a : Attempt) (t : Turn) (s : Scan) → IsOrdered s → IsOrdered (attempt now a t s)
unfolding attempt
attempt-IsOrdered now a t s v =
    elim (Bool-cases (eligible (apply_all s.state t.before) s.failed a)) [
      | inl go ↦ rw go (sends (eligible-passes (apply_all s.state t.before) s.failed a go))
      | inr skip ↦ rw skip (record { ordered = v.ordered; remembered = v.remembered })
    ]
  where
    this : Sending
    this = record { packet = a.packet; sent = t.sent }

    c : ℕ
    c = a.packet.header.channel_id

    sends :
        s.failed c ≡ false
        → IsOrdered (record {
          state = finish_attempt now a t (apply_all (apply_all s.state t.before) t.during);
          failed = λ d. if d == c then not t.sent else s.failed d;
          log = s.log ++ (this ∷ []);
        })
    sends e = record {
      ordered = IsHeadOfLine-snoc s.log this v.ordered (passes s.failed c s.log e v.remembered);
      remembered =
          All-snoc _ s.log this (Remembers-update s.failed c t.sent s.log e v.remembered)
            (λ refused. ground arith);
    }

attempts-IsOrdered :
    (now : ℕ) (list : List Attempt) (turns : ℕ → Turn) (i : ℕ) (s : Scan)
    → IsOrdered s
    → IsOrdered (attempts now list turns i s)
unfolding attempts
attempts-IsOrdered now [] turns i s v = v
attempts-IsOrdered now (a ∷ rest) turns i s v =
    attempts-IsOrdered now rest turns (i + 1) _ (attempt-IsOrdered now a (turns i) s v)

-- In every scan, whatever other threads do meanwhile, the first refusal of the socket stops the
-- packet's channel: no later packet of that channel is handed over in the same scan.
pub process-IsHeadOfLine :
    (allocated : Bool) (r : Retransmission) (now : ℕ) (ticks : Option ℕ) (delay : ℕ)
    (channel : Option ℕ) (turns : ℕ → Turn)
    → IsHeadOfLine (process allocated r now ticks delay channel turns).log
unfolding process
process-IsHeadOfLine true r now ticks delay channel turns =
    (attempts-IsOrdered now _ turns 0 _ (record { ordered = tt; remembered = tt })).ordered
process-IsHeadOfLine false r now ticks delay channel turns = tt
