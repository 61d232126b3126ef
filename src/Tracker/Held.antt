-- ===== src/Tracker/Held.antt =====
-- src/session/frame_tracker.c: a ticket that is held is not used for another frame, and its outcome
-- is decided once.
use ihslib.Common.{
  ℕ, zero, suc, ◌+◌, ◌≤◌, ◌<◌, ◌≡◌, refl, sym, ap, ◌∙◌, true, false, Option, List, [], ◌∷◌, ◌++◌,
  map, replicate, length, arith,
}
use ihslib.Tracker.State.{
  TrackedFrame, Publication, opened, claimed, ready, expired, closed, Ticket, blank_ticket,
  is_opened, is_ready, is_claimed, get_ticket, change_ticket,
}
use ihslib.Tracker.Epoch.{settle_records, room_after}

-- What becomes of a ticket with more than `n` references whose holders release `n` of them.
pub record Kept (n : ℕ) (r q : Ticket) : Type 0 where
  pub identity_eq : q.frame.identity ≡ r.frame.identity
  pub refs_le : r.refs ≤ q.refs + n
  pub decided : is_opened r.publication ≡ false → is_opened q.publication ≡ false
  pub published :
      is_ready r.publication ≡ true → (is_ready q.publication ≡ true) × (q.payload ≡ r.payload)

abbrev pub Keeps : ℕ → Ticket → Ticket → Type 0
Keeps n r q = n < r.refs → Kept n r q

pub Keeps-refl : (r : Ticket) → Keeps 0 r r
Keeps-refl r h = record {
  identity_eq = refl;
  refs_le = omega arith;
  decided = λ d. d;
  published = λ p. (p, refl);
}

pub Keeps-trans : (n m : ℕ) (r q s : Ticket) → Keeps n r q → Keeps m q s → Keeps (n + m) r s
Keeps-trans n m r q s f g h =
    let a = f (omega arith) in
    let b = g (omega (arith, a.refs_le)) in
    record {
      identity_eq = b.identity_eq ∙ a.identity_eq;
      refs_le = omega (arith, a.refs_le, b.refs_le);
      decided = λ d. b.decided (a.decided d);
      published = λ p. let x = a.published p in let y = b.published x.0 in (y.0, y.1 ∙ x.1);
    }

pub Keeps-same : (n : ℕ) (r : Ticket) → Keeps n r r
Keeps-same n r h = record {
  identity_eq = refl;
  refs_le = omega arith;
  decided = λ d. d;
  published = λ p. (p, refl);
}

-- A ticket whose outcome was not there yet, and that is not open afterwards.
pub Keeps-undone :
    (r q : Ticket)
    → q.frame.identity ≡ r.frame.identity
    → q.refs ≡ r.refs
    → is_ready r.publication ≡ false
    → is_opened q.publication ≡ false
    → Keeps 0 r q
Keeps-undone r q same refs undone shut h = record {
  identity_eq = same;
  refs_le = omega (arith, refs);
  decided = λ d. shut;
  published = λ p. absurd (ne (sym p ∙ undone));
}
  where
    ne : true ≡ false → ⊥
    ne e = cc

-- A change that leaves identity, publication and outcome alone.
pub Keeps-open :
    (n : ℕ) (r q : Ticket)
    → q.frame.identity ≡ r.frame.identity
    → q.publication ≡ r.publication
    → q.payload ≡ r.payload
    → r.refs ≤ q.refs + n
    → Keeps n r q
Keeps-open n r q same state pay le h = record {
  identity_eq = same;
  refs_le = le;
  decided = λ d. ap is_opened state ∙ d;
  published = λ p. (ap is_ready state ∙ p, pay);
}

pub Keeps-alike :
    (r q : Ticket)
    → q.frame.identity ≡ r.frame.identity
    → q.publication ≡ r.publication
    → q.payload ≡ r.payload
    → q.refs ≡ r.refs
    → Keeps 0 r q
Keeps-alike r q same state pay refs = Keeps-open 0 r q same state pay (omega (arith, refs))

pub is_ready-opened : (p : Publication) → is_opened p ≡ true → is_ready p ≡ false
unfolding is_opened is_ready
is_ready-opened opened h = refl
is_ready-opened claimed h = refl
is_ready-opened ready h = cc
is_ready-opened expired h = refl
is_ready-opened closed h = refl

pub is_ready-claimed : (p : Publication) → is_claimed p ≡ true → is_ready p ≡ false
unfolding is_claimed is_ready
is_ready-claimed opened h = refl
is_ready-claimed claimed h = refl
is_ready-claimed ready h = cc
is_ready-claimed expired h = refl
is_ready-claimed closed h = refl

-- A change at one place.
pub Keeps-change :
    (n : ℕ) (f : Ticket → Ticket) (records : List Ticket) (i j : ℕ)
    → (i ≡ j → Keeps n (get_ticket records j) (f (get_ticket records j)))
    → Keeps n (get_ticket records i) (get_ticket (change_ticket f records j) i)
unfolding get_ticket change_ticket
Keeps-change n f [] i j h = Keeps-same n blank_ticket
Keeps-change n f (r ∷ records) zero zero h = h refl
Keeps-change n f (r ∷ records) zero (suc j) h = Keeps-same n r
Keeps-change n f (r ∷ records) (suc i) zero h = Keeps-same n (get_ticket records i)
Keeps-change n f (r ∷ records) (suc i) (suc j) h = Keeps-change n f records i j (λ e. h (ap suc e))

-- A change everywhere.
pub Keeps-map :
    (f : Ticket → Ticket) (records : List Ticket) (i : ℕ)
    → ((r : Ticket) → Keeps 0 r (f r))
    → Keeps 0 (get_ticket records i) (get_ticket (map f records) i)
unfolding get_ticket
Keeps-map f [] i h = Keeps-same 0 blank_ticket
Keeps-map f (r ∷ records) zero h = h r
Keeps-map f (r ∷ records) (suc i) h = Keeps-map f records i h

pub Keeps-settle_records :
    (one : Ticket → Ticket × Option TrackedFrame) (records : List Ticket) (room i : ℕ)
    → ((r : Ticket) → Keeps 0 r (one r).0)
    → Keeps 0 (get_ticket records i) (get_ticket (settle_records one records room).0 i)
unfolding get_ticket settle_records
Keeps-settle_records one [] room i h = Keeps-same 0 blank_ticket
Keeps-settle_records one (r ∷ records) zero i h = Keeps-same 0 (get_ticket (r ∷ records) i)
Keeps-settle_records one (r ∷ records) (suc room) zero h = h r
Keeps-settle_records one (r ∷ records) (suc room) (suc i) h =
    Keeps-settle_records one records (room_after room (one r).1) i h

-- A new block reads as the places behind the end.
pub get_ticket-append :
    (records : List Ticket) (n i : ℕ)
    → get_ticket (records ++ replicate n blank_ticket) i ≡ get_ticket records i
unfolding get_ticket
get_ticket-append [] zero i = refl
get_ticket-append [] (suc n) zero = refl
get_ticket-append [] (suc n) (suc i) = get_ticket-append [] n i
get_ticket-append (r ∷ records) n zero = refl
get_ticket-append (r ∷ records) n (suc i) = get_ticket-append records n i

pub get_ticket-length : (records : List Ticket) → get_ticket records (length records) ≡ blank_ticket
unfolding get_ticket
get_ticket-length [] = refl
get_ticket-length (r ∷ records) = get_ticket-length records
