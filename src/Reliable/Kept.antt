-- ===== src/Reliable/Kept.antt =====
-- src/session/reliable.c: what the calls of a loss report do to the packets that it does not release.
use ihslib.Common.{
  ℕ, zero, suc, ◌/◌, ◌%◌, ◌≡◌, refl, ap, ap₂, All, ◌∙◌, Bool, true, false, not, ◌||◌, some, List,
  [], ◌∷◌, ◌++◌, map, select, drop, ◌==◌, if◌then◌else◌, inl, inr, Bool-cases, Option-cases, arith,
  add16,
}
use ihslib.Packet.Header.{int16_min}
use ihslib.Retransmission.State.{Pending, Retransmission, find, unlink, matches}
use ihslib.Retransmission.Feedback.{
  acknowledge, acknowledge_through, nack_before, nudge, nudge_all, released, wanted,
}
use ihslib.Retransmission.Lookup.{find_test}
use ihslib.Retransmission.Retention.{Key, key, key-nudge}
use ihslib.Retransmission.Serial.{pending-acknowledge_through}
use ihslib.Reliable.Nack.{nack_bit, nack_bits, nack_mask}

-- The IDs whose bits are set.
abbrev pub byte_ids : ℕ → ℕ → ℕ → List ℕ
byte_ids zero id bits = []
byte_ids (suc n) id bits =
    let rest = byte_ids n (add16 id 1) (bits / 2) in if bits % 2 == 1 then id ∷ rest else rest

abbrev pub mask_ids : ℕ → List ℕ → List ℕ
mask_ids id [] = []
mask_ids id (bits ∷ mask) = byte_ids 8 id bits ++ mask_ids (add16 id 8) mask

abbrev pub is_member : ℕ → List ℕ → Bool
is_member id [] = false
is_member id (x ∷ xs) = id == x || is_member id xs

All-split : (P : ℕ → Type 0) (xs ys : List ℕ) → All P (xs ++ ys) → All P xs × All P ys
All-split P [] ys a = (tt, a)
All-split P (x ∷ xs) ys a = let both = All-split P xs ys a.1 in ((a.0, both.0), both.1)

module _ (h : Pending → Bool) where
  -- What is left of a list without the packets that `h` holds of.
  abbrev pub rest : List Pending → List Key
  rest ps = map key (select (λ p. not (h p)) ps)

  rest-cons :
      (q p : Pending) (us ps : List Pending)
      → h q ≡ h p
      → key q ≡ key p
      → rest us ≡ rest ps
      → rest (q ∷ us) ≡ rest (p ∷ ps)
  rest-cons q p us ps same k e = elim (Bool-cases (h p)) [
    | inl held ↦ rw (same, held) e
    | inr other ↦ rw (same, other) (ap₂ (λ a l. a ∷ l) k e)
  ]

  rest-nudge_all :
      (t : Pending → Bool) (now : ℕ) (ps : List Pending)
      → ((p : Pending) → h (nudge now p) ≡ h p)
      → rest (nudge_all t now ps) ≡ rest ps
  unfolding nudge_all
  rest-nudge_all t now [] stable = refl
  rest-nudge_all t now (p ∷ ps) stable = elim (Bool-cases (t p)) [
    | inl hit ↦ rw hit (
        rest-cons (nudge now p) p (nudge_all t now ps) ps (stable p) (key-nudge now p)
          (rest-nudge_all t now ps stable))
    | inr miss ↦
        rw miss (rest-cons p p (nudge_all t now ps) ps refl refl (rest-nudge_all t now ps stable))
  ]

  rest-unlink :
      (t : Pending → Bool) (ps : List Pending) (p : Pending)
      → find t ps ≡ some p
      → h p ≡ true
      → rest (unlink t ps) ≡ rest ps
  unfolding find unlink
  rest-unlink t [] p e k = refl
  rest-unlink t (q ∷ ps) p e k = elim (Bool-cases (t q)) [
    | inl hit ↦
        let same : q ≡ p = ground (arith, hit, e) in
        let held : h q ≡ true = ap h same ∙ k in rw (hit, held) refl
    | inr miss ↦
        let later : find t ps ≡ some p = ground (arith, miss, e) in
        rw miss (rest-cons q q (unlink t ps) ps refl refl (rest-unlink t ps p later k))
  ]

  rest-select :
      (d : Pending → Bool) (ps : List Pending)
      → ((p : Pending) → d p ≡ true → h p ≡ true)
      → rest (select (λ p. not (d p)) ps) ≡ rest ps
  rest-select d [] implies = refl
  rest-select d (p ∷ ps) implies = elim (Bool-cases (d p)) [
    | inl drop ↦ rw (drop, implies p drop) (rest-select d ps implies)
    | inr keep ↦
        rw keep (rest-cons p p (select (λ q. not (d q)) ps) ps refl refl (rest-select d ps implies))
  ]

  -- What keeps the packets that `h` does not hold of.
  abbrev pub Keeps : (Retransmission → Retransmission) → Type 0
  Keeps f = (r : Retransmission) → rest (f r).pending ≡ rest r.pending

  pub nack_before-Keeps :
      (channel id : ℕ) (below : Bool) (cutoff now : ℕ)
      → ((p : Pending) → h (nudge now p) ≡ h p)
      → Keeps (λ r. (nack_before r channel id below cutoff now).0)
  unfolding nack_before
  nack_before-Keeps channel id below cutoff now stable r =
      rest-nudge_all (wanted channel id below cutoff) now r.pending stable

  acknowledge-Keeps :
      (channel id now : ℕ)
      → ((p : Pending) → matches channel id int16_min p ≡ true → p.ready ≡ true → h p ≡ true)
      → Keeps (λ r. (acknowledge r channel id int16_min now).0)
  unfolding acknowledge
  acknowledge-Keeps channel id now implies r =
      let t = matches channel id int16_min in
      elim (Option-cases (find t r.pending)) [
        | inl nothing ↦ rw (nothing, acknowledge) refl
        | inr (p, found) ↦ elim (Bool-cases p.ready) [
          | inl ready ↦
              rw (found, ready, acknowledge)
                (rest-unlink t r.pending p found (implies p (find_test t r.pending p found) ready))
          | inr staged ↦ rw (found, staged, acknowledge) refl
        ]
      ]

  pub acknowledge_through-Keeps :
      (channel boundary now : ℕ)
      → ((p : Pending) → released channel boundary p ≡ true → h p ≡ true)
      → Keeps (λ r. (acknowledge_through r channel boundary now).0)
  acknowledge_through-Keeps channel boundary now implies r =
      ap rest (pending-acknowledge_through r channel boundary now)
      ∙ rest-select (released channel boundary) r.pending implies

  module _ (channel cutoff now : ℕ) (stable : (p : Pending) → h (nudge now p) ≡ h p) where
    -- A set bit's ID is one that `h` holds of.
    abbrev pub Covers : ℕ → Type 0
    Covers id = (p : Pending) → matches channel id int16_min p ≡ true → p.ready ≡ true → h p ≡ true

    nack_bit-Keeps :
        (b : Bool) (id : ℕ) → (b ≡ true → Covers id) → Keeps (nack_bit channel cutoff now b id)
    unfolding nack_bit
    nack_bit-Keeps true id cover r = acknowledge-Keeps channel id now (cover refl) r
    nack_bit-Keeps false id cover r = nack_before-Keeps channel id false cutoff now stable r

    split_bit :
        (b : Bool) (id : ℕ) (ids : List ℕ)
        → All Covers (if b then id ∷ ids else ids)
        → (b ≡ true → Covers id) × All Covers ids
    split_bit true id ids a = (λ e. a.0, a.1)
    split_bit false id ids a = (λ e. absurd (cc), a)

    nack_bits-Keeps :
        (n id bits : ℕ)
        → All Covers (byte_ids n id bits)
        → Keeps (nack_bits channel cutoff now n id bits)
    unfolding nack_bits
    nack_bits-Keeps zero id bits all r = refl
    nack_bits-Keeps (suc n) id bits all r = elim (Bool-cases (bits == 0)) [
      | inl done ↦ rw done refl
      | inr more ↦
          let both = split_bit (bits % 2 == 1) id (byte_ids n (add16 id 1) (bits / 2)) all in
          rw more (
            nack_bits-Keeps n (add16 id 1) (bits / 2) both.1
              (nack_bit channel cutoff now (bits % 2 == 1) id r)
            ∙ nack_bit-Keeps (bits % 2 == 1) id both.0 r)
    ]

    pub nack_mask-Keeps :
        (id : ℕ) (mask : List ℕ)
        → All Covers (mask_ids id mask)
        → Keeps (nack_mask channel cutoff now id mask)
    unfolding nack_mask
    nack_mask-Keeps id [] all r = refl
    nack_mask-Keeps id (bits ∷ mask) all r =
        let both = All-split Covers (byte_ids 8 id bits) (mask_ids (add16 id 8) mask) all in
        nack_mask-Keeps (add16 id 8) mask both.1 (nack_bits channel cutoff now 8 id bits r)
        ∙ nack_bits-Keeps 8 id bits both.0 r
