-- ===== src/Hid/Sync.antt =====
-- src/hid/report.c: whatever reports a device adds, the host has its state after each message.
use ihslib.Common.{
  ℕ, ◌+◌, ◌≤◌, ◌<◌, ◌≡◌, refl, sym, ap, subst, ◌∙◌, Bool, true, false, not, ◌&&◌, Option, some,
  List, [], ◌∷◌, length, arith, ltb, leb, ◌==◌, ==_iff, Bool-cases, inl, inr,
}
use ihslib.Buffer.Defs.{clear, start_capacity}
use ihslib.Hid.Crc32.{crc32}
use ihslib.Hid.Delta.{mask_size, compute_delta}
use ihslib.Hid.Report.{
  full_report, delta_report, Holder, stash, is_same, same_as_last_sent, add_item, clear_message,
  bind_items, commit, put_full, add_full, replace_with_full, put_delta, add_delta,
}
use ihslib.Hid.Staged.{stage-Staged}
use ihslib.Hid.Room.{stage_total}
use ihslib.Hid.Patch.{apply_delta, apply_delta-compute_delta, length-compute_delta}
use ihslib.Hid.Chain.{play}
use ihslib.Hid.Message.{Plays, staged-Plays, put-Plays, receive_full, receive_delta}

pub is_same-eq : (xs ys : List ℕ) → is_same xs ys ≡ true → xs ≡ ys
unfolding is_same
is_same-eq [] [] h = refl
is_same-eq [] (y ∷ ys) h = cc
is_same-eq (x ∷ xs) [] h = cc
is_same-eq (x ∷ xs) (y ∷ ys) h = ground (arith, ==_iff x y, is_same-eq xs ys)

-- `m` is the report's length, `n` that of a state.
module _ (junk m n : ℕ) (pos : 0 < n) (fit : n ≤ m) where
  -- The host that gets the message has the device's state, and the scratch copies hold it.
  pub record InSync (host state : List ℕ) (h : Holder) : Type 0 where
    pub report_length_eq : h.report_length ≡ m
    pub size_eq : length state ≡ n
    pub message : Plays junk m host state h.data_buffer h.report_items h.report_offsets
    pub pending : 0 < length h.pending_current → h.pending_current ≡ state
    pub last : length h.pending_current ≡ 0 → 0 < length h.last_sent → h.last_sent ≡ state

  same_as_last_sent_lem :
      (host state current : List ℕ) (h : Holder)
      → InSync host state h
      → length current ≡ n
      → same_as_last_sent h current ≡ true
      → current ≡ state
  unfolding same_as_last_sent
  same_as_last_sent_lem host state current h s e same =
      elim (Bool-cases (length h.pending_current == 0)) [
        | inl empty ↦
            let eq : h.last_sent ≡ current =
              is_same-eq h.last_sent current (ground (arith, same, empty)) in
            sym eq ∙ s.last (ground (arith, empty)) (rw eq (omega arith))
        | inr some_bytes ↦
            sym (is_same-eq h.pending_current current (ground (arith, same, some_bytes)))
            ∙ s.pending (ground (arith, some_bytes))
      ]

  put_full_lem :
      (host state current : List ℕ) (h : Holder)
      → Plays junk m host state h.data_buffer h.report_items h.report_offsets
      → 0 < length current
      → h.data_buffer.size + length current ≤ 8192
      → (h' : Holder) × (put_full junk current h ≡ some h')
        × Plays junk m host current h'.data_buffer h'.report_items h'.report_offsets
        × (h'.data_buffer.size ≡ h.data_buffer.size + length current)
        × (h'.report_length ≡ h.report_length)
        × (h'.pending_current ≡ h.pending_current)
  unfolding put_full add_item
  put_full_lem host state current h p nonempty room =
      let b = h.data_buffer in
      let t =
        stage_total junk b (length current) current p.store p.growable nonempty room
          (omega arith) in
      let s = stage-Staged junk (length current) b current t.0 t.1 (omega arith) p.store in
      (
        add_item (full_report (length current)) b.size (commit t.0 (length current)) h,
        rw t.1 refl,
        put-Plays junk m p s t.2 (full_report (length current)) current refl
            (receive_full junk m p s t.2),
        ap (λ (k : ℕ). k + length current) s.size_eq,
        refl,
        refl,
      )

  -- A stashed state whose report is in the message.
  stashed-InSync :
      (host current : List ℕ) (h : Holder)
      → h.report_length ≡ m
      → length current ≡ n
      → Plays junk m host current h.data_buffer h.report_items h.report_offsets
      → h.pending_current ≡ current
      → InSync host current h
  stashed-InSync host current h r e p q = record {
    report_length_eq = r;
    size_eq = e;
    message = p;
    pending = λ _. q;
    last = λ empty _. absurd (omega (arith, empty, ap length q, e));
  }

  -- What a call may add to the message.
  abbrev pub most : ℕ
  most = mask_size m + n

  -- A call succeeds and brings the host that gets the message to the state of the call.
  abbrev pub Advances : List ℕ → List ℕ → Holder → Option Holder → Type 0
  Advances host next h result =
      (h' : Holder) × (result ≡ some h')
      × InSync host next h'
      × (h'.data_buffer.size ≤ h.data_buffer.size + most)

  put_stashed :
      (host state current : List ℕ) (h : Holder)
      → h.report_length ≡ m
      → h.pending_current ≡ current
      → Plays junk m host state h.data_buffer h.report_items h.report_offsets
      → length current ≡ n
      → h.data_buffer.size + n ≤ 8192
      → Advances host current h (put_full junk current h)
  put_stashed host state current h r q p e room =
      let t = put_full_lem host state current h p (omega (arith, e)) (omega (arith, e)) in
      (t.0, t.1, stashed-InSync host current t.0 (t.4 ∙ r) e t.2 (t.5 ∙ q), omega (arith, t.3, e))

  pub add_full_lem :
      (force : Bool) (host state current : List ℕ) (h : Holder)
      → InSync host state h
      → length current ≡ n
      → h.data_buffer.size + n ≤ 8192
      → Advances host current h (add_full junk force current h)
  unfolding add_full stash
  add_full_lem force host state current h s e room =
      let short : ltb h.report_length (length current) ≡ false =
        ground (arith, s.report_length_eq, e, fit) in
      elim (Bool-cases (not force && same_as_last_sent h current)) [
        | inl dup ↦
            let eq : current ≡ state =
              same_as_last_sent_lem host state current h s e (ground (arith, dup)) in
            (h, rw (short, dup) refl, subst (λ t. InSync host t h) (sym eq) s, omega arith)
        | inr new ↦
            let t =
              put_stashed host state current (stash current h) s.report_length_eq refl s.message e
                room in
            (t.0, rw (short, new) t.1, t.2, t.3)
      ]

  pub clear-Plays :
      (host state : List ℕ) (promote : Bool) (h : Holder)
      → InSync host state h
      → (start : List ℕ) → Plays junk m start start (clear_message promote h).data_buffer [] []
  unfolding clear_message clear play start_capacity bind_items
  clear-Plays host state promote h s start = record {
    store = record {
      fits = omega (arith, s.message.store.fits);
      within = s.message.store.within;
      bounded = s.message.store.bounded;
      small = s.message.store.small;
    };
    growable = record {
      offset_zero = refl;
      suffix_zero = s.message.growable.suffix_zero;
      limit = s.message.growable.limit;
      doublings = s.message.growable.doublings;
      doubling = s.message.growable.doubling;
      within = s.message.growable.within;
    };
    range = tt;
    played = refl;
  }

  pub replace_lem :
      (host state current : List ℕ) (h : Holder)
      → InSync host state h
      → length current ≡ n
      → n ≤ 8192
      → Advances host current h (replace_with_full junk current h)
  unfolding replace_with_full clear_message clear stash
  replace_lem host state current h s e room =
      let short : ltb h.report_length (length current) ≡ false =
        ground (arith, s.report_length_eq, e, fit) in
      let t =
        put_stashed host host current (stash current (clear_message false h)) s.report_length_eq
          refl (clear-Plays host state false h s host) e (omega arith) in
      (t.0, rw short t.1, t.2, omega (arith, t.3))

  pub add_delta_lem :
      (host state current : List ℕ) (h : Holder)
      → InSync host state h
      → length current ≡ n
      → h.data_buffer.size + most ≤ 8192
      → Advances host current h (add_delta junk state current h)
  unfolding add_delta put_delta add_item stash
  add_delta_lem host state current h s e room =
      let r = h.report_length in
      let bytes = compute_delta state current r in
      let room' = ap mask_size s.report_length_eq in
      let le : length bytes ≤ mask_size r + length current =
        length-compute_delta state current r (omega (arith, e, s.report_length_eq)) in
      let b = h.data_buffer in
      let st =
        stage_total junk b (mask_size r + length current) bytes s.message.store s.message.growable
          (omega (arith, e)) (omega (arith, e, room')) le in
      let staged =
        stage-Staged junk (mask_size r + length current) b bytes st.0 st.1 le s.message.store in
      let allowed : ltb (mask_size r + length current) (length bytes) ≡ false =
        ground (arith, le) in
      elim (Bool-cases (leb (length current) (length bytes + 8))) [
        | inl long ↦
            let t =
              put_stashed host state current (record (stash current h) { data_buffer = st.0 })
                s.report_length_eq refl (staged-Plays junk m s.message staged st.2) e
                (omega (arith, staged.size_eq)) in
            (t.0, rw st.1 (rw (allowed, long) t.1), t.2, omega (arith, t.3, staged.size_eq))
        | inr pays ↦
            let applied =
              subst (λ k. apply_delta k (compute_delta state current r) state ≡ current)
                s.report_length_eq
                (apply_delta-compute_delta state current r (omega (arith, e, s.report_length_eq))
                  (s.size_eq ∙ sym e)) in
            let p =
              put-Plays junk m s.message staged st.2
                (delta_report (length bytes) (crc32 current) (length current)) current refl
                (receive_delta junk m s.message staged st.2 current applied) in
            (
              put_delta bytes current st.0 (stash current h),
              rw st.1 (rw (allowed, pays) refl),
              stashed-InSync host current (put_delta bytes current st.0 (stash current h))
                  s.report_length_eq e p refl,
              omega (arith, staged.size_eq, le, e, room'),
            )
      ]
