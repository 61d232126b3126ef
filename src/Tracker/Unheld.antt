-- ===== src/Tracker/Unheld.antt =====
-- src/session/frame_tracker.c: a new frame takes a ticket that nobody holds.
use ihslib.Common.{
  ℕ, suc, ◌+◌, ◌^◌, ◌≡◌, refl, sym, ap, ◌∙◌, subst, Bool, true, false, not, ◌||◌, Option, none,
  some, List, [], ◌∷◌, ◌++◌, length, ltb, leb, ◌-◌, ◌==◌, ==_iff, if◌then◌else◌, arith, Bool-cases,
  Option-cases, inl, inr,
}
use ihslib.Tracker.State.{
  Receive, Ticket, Tracker, get_ticket, is_opened, retain_ref, new_block, tracker_capacity,
}
use ihslib.Tracker.Ticket.{ticket, on_ticket}
use ihslib.Tracker.Begin.{
  Found, own, places, Sequence, sequence, refused, is_unheld, is_free, is_collected, first_place,
  find_place, join, join_receive, remember_sequence, start, start_free, begin_found, begin_sequence,
  begin_frame, is_own, wire_sequence, is_seen,
}
use ihslib.Tracker.Held.{
  Keeps, Keeps-same, Keeps-open, Keeps-change, get_ticket-append, get_ticket-length,
}

-- A place, where there is one, of a ticket that nobody holds.
abbrev pub IsUnheld : List Ticket → Option ℕ → Type 0
IsUnheld records none = Unit
IsUnheld records (some j) = (get_ticket records j).refs ≡ 0

abbrev AreUnheld : List Ticket → Found → Type 0
AreUnheld records (own j) = Unit
AreUnheld records (places free collected) = IsUnheld records free × IsUnheld records collected

is_free-refs : (r : Ticket) → is_free r ≡ true → r.refs ≡ 0
unfolding is_free is_unheld
is_free-refs r h = ground (arith, ==_iff r.refs 0)

is_collected-refs : (b : Bool) (r : Ticket) → is_collected b r ≡ true → r.refs ≡ 0
unfolding is_collected is_unheld
is_collected-refs b r h = ground (arith, ==_iff r.refs 0)

first_place-IsUnheld :
    (all : List Ticket) (old : Option ℕ) (test : Bool) (i : ℕ)
    → IsUnheld all old
    → (test ≡ true → (get_ticket all i).refs ≡ 0)
    → IsUnheld all (first_place old test i)
unfolding first_place
first_place-IsUnheld all (some j) test i h k = h
first_place-IsUnheld all none true i h k = k refl
first_place-IsUnheld all none false i h k = tt

find_place-AreUnheld :
    (mine : Ticket → Bool) (tracking : Bool) (all records : List Ticket) (i : ℕ)
    (free collected : Option ℕ)
    → ((k : ℕ) → get_ticket records k ≡ get_ticket all (i + k))
    → IsUnheld all free
    → IsUnheld all collected
    → AreUnheld all (find_place mine tracking records i free collected)
unfolding find_place get_ticket
find_place-AreUnheld mine tracking all [] i free collected at f c = (f, c)
find_place-AreUnheld mine tracking all (r ∷ records) i free collected at f c =
    let here : r ≡ get_ticket all i = at 0 ∙ ap (get_ticket all) (omega arith) in
    pick (mine r) _ (
      find_place-AreUnheld mine tracking all records (suc i) (first_place free (is_free r) i)
        (first_place collected (is_collected tracking r) i)
        (λ k. at (suc k) ∙ ap (get_ticket all) (omega arith))
        (first_place-IsUnheld all free (is_free r) i f
          (λ t. ap (λ q. q.refs) (sym here) ∙ is_free-refs r t))
        (first_place-IsUnheld all collected (is_collected tracking r) i c
          (λ t. ap (λ q. q.refs) (sym here) ∙ is_collected-refs tracking r t)))
  where
    pick :
        (b : Bool) (rest : Found) → AreUnheld all rest → AreUnheld all (if b then own i else rest)
    pick true rest h = tt
    pick false rest h = h

-- Every ticket that is held is kept, whatever becomes of the begin.
module _ (i : ℕ) where
  abbrev KeptAt : Tracker → Tracker → Type 0
  KeptAt t t' = Keeps 0 (ticket t i) (ticket t' i)

  join-Keeps : (j : ℕ) (receive : Receive) (t : Tracker) → KeptAt t (join j receive t).2
  unfolding join ticket on_ticket
  join-Keeps j receive t =
      elim (Bool-cases ((ticket t j).settled || not (is_opened (ticket t j).publication))) [
        | inl e ↦ rw e (Keeps-same 0 (ticket t i))
        | inr e ↦ elim (Option-cases (retain_ref t.refs)) [
          | inl p ↦ rw (e, p) (Keeps-same 0 (ticket t i))
          | inr (n, p) ↦ elim (Bool-cases ((ticket t j).refs == 2 ^ 32 - 1)) [
            | inl full ↦ rw (e, p, full) (Keeps-same 0 (ticket t i))
            | inr room ↦
                rw (e, p, room)
                  (Keeps-change 0 (λ q. join_receive receive (record q { refs = suc q.refs }))
                    t.records i j (λ _. joined (get_ticket t.records j)))
          ]
        ]
      ]
    where
      joined : (r : Ticket) → Keeps 0 r (join_receive receive (record r { refs = suc r.refs }))
      joined r =
          unfold join_receive in
          elim (Bool-cases (leb r.frame.receive.last_receive_us receive.last_receive_us)) [
            | inl e ↦ rw e (Keeps-open 0 r _ refl refl refl (omega arith))
            | inr e ↦ rw e (Keeps-open 0 r _ refl refl refl (omega arith))
          ]

  remember_sequence-records :
      (input : Bool) (seq : ℕ) (t : Tracker) → (remember_sequence input seq t).records ≡ t.records
  unfolding remember_sequence
  remember_sequence-records true seq t = refl
  remember_sequence-records false seq t = refl

  start-Keeps :
      (input : Bool) (epoch seq frame_id : ℕ) (receive : Receive) (j : ℕ) (t : Tracker)
      → (get_ticket t.records j).refs ≡ 0
      → KeptAt t (start input epoch seq frame_id receive j t).2
  unfolding start ticket on_ticket
  start-Keeps input epoch seq frame_id receive j t h = elim (Bool-cases (t.serial == 2 ^ 64 - 1)) [
    | inl e ↦ rw e (Keeps-same 0 (ticket t i))
    | inr e ↦ elim (Option-cases (retain_ref t.refs)) [
      | inl p ↦ rw (e, p) (Keeps-same 0 (ticket t i))
      | inr (n, p) ↦
          rw (e, p)
            (rw (remember_sequence-records input seq _)
              (Keeps-change 0 _ t.records i j (λ _ held. absurd (omega (arith, h, held)))))
    ]
  ]

  start_free-Keeps :
      (memory input : Bool) (epoch seq frame_id : ℕ) (receive : Receive) (free collected : Option ℕ)
      (t : Tracker)
      → AreUnheld t.records (places free collected)
      → KeptAt t (start_free memory input epoch seq frame_id receive free collected t).2
  unfolding start_free ticket new_block
  start_free-Keeps memory input epoch seq frame_id receive (some j) collected t h =
      start-Keeps input epoch seq frame_id receive j t h.0
  start_free-Keeps memory input epoch seq frame_id receive none (some j) t h =
      start-Keeps input epoch seq frame_id receive j t h.1
  start_free-Keeps memory input epoch seq frame_id receive none none t h =
      elim (Bool-cases (ltb (2 ^ 64 - 1 - tracker_capacity) (length t.records))) [
        | inl e ↦ rw e (Keeps-same 0 (ticket t i))
        | inr e ↦ elim (Bool-cases memory) [
          | inl m ↦
              let more = record t { records = t.records ++ new_block } in
              rw (e, m)
                (subst
                  (λ r.
                    Keeps 0 r
                      (ticket (start input epoch seq frame_id receive (length t.records) more).2 i))
                  (get_ticket-append t.records tracker_capacity i)
                  (start-Keeps input epoch seq frame_id receive (length t.records) more (
                    ap (λ r. r.refs)
                      (get_ticket-append t.records tracker_capacity (length t.records)
                        ∙ get_ticket-length t.records))))
          | inr m ↦ rw (e, m) (Keeps-same 0 (ticket t i))
        ]
      ]

  pub begin_frame-Keeps :
      (memory input : Bool) (epoch frame_id : ℕ) (receive : Receive) (t : Tracker)
      → KeptAt t (begin_frame memory input epoch frame_id receive t).2
  unfolding begin_frame
  begin_frame-Keeps memory input epoch frame_id receive t =
      elim (Bool-cases (not t.accepting || not (epoch == t.epoch))) [
        | inl e ↦ rw e (Keeps-same 0 (ticket t i))
        | inr e ↦ rw e (sequenced (wire_sequence input frame_id t))
      ]
    where
      found :
          (seq : ℕ) (f : Found)
          → AreUnheld t.records f
          → KeptAt t (begin_found memory input epoch seq frame_id receive f t).2
      found seq (own j) h = unfold begin_found in join-Keeps j receive t
      found seq (places free collected) h =
          unfold begin_found in
          elim (Bool-cases (is_seen input seq t)) [
            | inl e ↦ rw e (Keeps-same 0 (ticket t i))
            | inr e ↦
                rw e (start_free-Keeps memory input epoch seq frame_id receive free collected t h)
          ]

      sequenced :
          (s : Sequence) → KeptAt t (begin_sequence memory input epoch frame_id receive s t).2
      sequenced (refused result) = unfold begin_sequence in Keeps-same 0 (ticket t i)
      sequenced (sequence seq) =
          unfold begin_sequence in
          found seq (find_place (is_own input epoch seq) t.stats_tracking t.records 0 none none) (
            find_place-AreUnheld (is_own input epoch seq) t.stats_tracking t.records t.records 0
              none none (λ k. ap (get_ticket t.records) (omega arith)) tt tt)
