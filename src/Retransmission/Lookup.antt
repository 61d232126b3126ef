-- ===== src/Retransmission/Lookup.antt =====
-- src/session/retransmission.c: what the list walks do to the list: its length, and what they find
-- and keep.
use ihslib.Common.{
  ℕ, suc, ◌+◌, ◌≡◌, refl, ap, Bool, true, some, List, [], ◌∷◌, not, map, select, length, arith, inl,
  inr, Bool-cases,
}
use ihslib.Retransmission.State.{Pending, Stats, find, unlink, change, retire}
use ihslib.Retransmission.Feedback.{acknowledge_walk, nudge_all, acknowledge_stats}

pub length-unlink :
    (t : Pending → Bool) (ps : List Pending) (p : Pending)
    → find t ps ≡ some p
    → length ps ≡ suc (length (unlink t ps))
unfolding find unlink
length-unlink t [] p e = absurd (cc)
length-unlink t (q ∷ ps) p e = ground (arith, length-unlink t ps p)

pub length-change :
    (t : Pending → Bool) (f : Pending → Pending) (ps : List Pending)
    → length (change t f ps) ≡ length ps
unfolding change
length-change t f [] = refl
length-change t f (p ∷ ps) = ground (arith, length-change t f ps)

pub length-map {ℓ κ} :
    {A : Type ℓ} {B : Type κ} (f : A → B) (xs : List A) → length (map f xs) ≡ length xs
length-map f [] = refl
length-map f (x ∷ xs) = ap suc (length-map f xs)

pub length-nudge_all :
    (t : Pending → Bool) (now : ℕ) (ps : List Pending) → length (nudge_all t now ps) ≡ length ps
unfolding nudge_all
length-nudge_all t now [] = refl
length-nudge_all t now (p ∷ ps) = ap suc (length-nudge_all t now ps)

-- The packet that a walk finds passes the walk's test.
pub find_test :
    (t : Pending → Bool) (ps : List Pending) (p : Pending) → find t ps ≡ some p → t p ≡ true
unfolding find
find_test t [] p e = absurd (cc)
find_test t (q ∷ ps) p e = elim (Bool-cases (t q)) [
  | inl hit ↦ ground arith
  | inr miss ↦ find_test t ps p (ground arith)
]

-- The walk of `IHS_RetransmissionAcknowledgeThrough` keeps exactly what fails its test, in order,
-- and counts the rest.
pub kept-acknowledge_walk :
    (t : Pending → Bool) (now : ℕ) (ps us : List Pending) (s : Stats) (n : ℕ)
    → ((acknowledge_walk t now ps us s n).kept ≡ select (λ p. not (t p)) ps)
      × ((acknowledge_walk t now ps us s n).count ≡ n + length (select t ps))
unfolding acknowledge_walk
kept-acknowledge_walk t now [] us s n = (refl, omega arith)
kept-acknowledge_walk t now (p ∷ ps) us s n = ground (
  arith,
  kept-acknowledge_walk t now ps (retire p ∷ us) (acknowledge_stats s p now) (n + 1),
  kept-acknowledge_walk t now ps us s n,
)
