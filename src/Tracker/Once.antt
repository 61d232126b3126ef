-- ===== src/Tracker/Once.antt =====
-- src/session/frame_tracker.c: no frame is reported twice.
use ihslib.Common.{
  ℕ, ◌+◌, ◌≤◌, ◌<◌, ◌≡◌, subst, none, some, List, [], ◌∷◌, ◌++◌, append-nil, append_assoc, ◌==◌,
  arith, Bool-cases, inl, inr,
}
use ihslib.Buffer.Defs.{◌>>=◌}
use ihslib.Buffer.Laws.{>>=-eq-some}
use ihslib.Tracker.State.{TrackedFrame, Tracker, new_block, tracker_capacity, create}
use ihslib.Tracker.Calls.{Call, step, run}
use ihslib.Tracker.Reports.{count, count-append, total, total-append}
use ihslib.Tracker.Accounts.{step-eq, Accounts, step-Accounts}

module _ (k : ℕ) where
  -- After some reports, the frame has a ticket or a report at most once, and none before it began.
  pub record IsSettledOnce (log : List TrackedFrame) (t : Tracker) : Type 0 where
    pub once : count k log + total k t.records ≤ 1
    pub later : t.serial < k → count k log + total k t.records ≡ 0

  step-IsSettledOnce :
      (log : List TrackedFrame) (t : Tracker) (s : List TrackedFrame × Tracker)
      → Accounts k t s
      → IsSettledOnce log t
      → IsSettledOnce (log ++ s.0) s.1
  step-IsSettledOnce log t s a v = record {
    once = ground (arith, count-append k log s.0, a.bound, a.serial_le, v.once, v.later);
    later = λ lt. ground (arith, count-append k log s.0, a.bound, a.serial_le, v.later);
  }

  run-IsSettledOnce :
      (calls : List Call) (log : List TrackedFrame) (t : Tracker) (s : List TrackedFrame × Tracker)
      → run calls t ≡ some s
      → IsSettledOnce log t
      → IsSettledOnce (log ++ s.0) s.1
  unfolding run
  run-IsSettledOnce [] log t s e v =
      subst (λ (q : List TrackedFrame × Tracker). IsSettledOnce (log ++ q.0) q.1) (step-eq e)
        (rw append-nil v)
  run-IsSettledOnce (c ∷ calls) log t s e v =
      let p = >>=-eq-some (step c t) (λ s. run calls s.1 >>= λ r. some (s.0 ++ r.0, r.1)) e in
      let q = >>=-eq-some (run calls p.0.1) (λ r. some (p.0.0 ++ r.0, r.1)) p.2 in
      let later =
        run-IsSettledOnce calls (log ++ p.0.0) p.0.1 q.0 q.1
          (step-IsSettledOnce log t p.0 (step-Accounts k c t p.0 p.1) v) in
      subst (λ (q : List TrackedFrame × Tracker). IsSettledOnce (log ++ q.0) q.1) (step-eq q.2)
        (rw (← append_assoc) later)

  create-IsSettledOnce : (id : ℕ) (t : Tracker) → create id ≡ some t → IsSettledOnce [] t
  unfolding create new_block count total
  create-IsSettledOnce id t h = elim (Bool-cases (id == 0)) [
    | inl z ↦ absurd (none-ne (rw z at h))
    | inr z ↦
        subst (λ u. IsSettledOnce [] u) (some-eq (rw z at h))
          (record {
            once = omega (arith, total-append k [] tracker_capacity);
            later = λ lt. omega (arith, total-append k [] tracker_capacity);
          })
  ]
    where
      some-eq : {x : Tracker} → some x ≡ some t → x ≡ t
      some-eq p = cc

      none-ne : none ≡ some t → ⊥
      none-ne p = cc

  -- Whatever calls come on a new tracker, in whatever order, no frame is reported as settled twice,
  -- whether it was completed or expired, and none before it began.
  pub count-run :
      (session_id : ℕ) (calls : List Call) (t : Tracker) (s : List TrackedFrame × Tracker)
      → create session_id ≡ some t
      → run calls t ≡ some s
      → (count k s.0 ≤ 1) × (s.1.serial < k → count k s.0 ≡ 0)
  count-run session_id calls t s new e =
      let v : IsSettledOnce s.0 s.1 =
        run-IsSettledOnce calls [] t s e (create-IsSettledOnce session_id t new) in
      (omega (arith, v.once), λ lt. omega (arith, v.later lt))
