-- ===== src/Hid/Patch.antt =====
-- src/hid/report.c: a delta, applied to the state that it was taken from, gives the new state.
use ihslib.Common.{
  ℕ, suc, ◌+◌, ◌*◌, ◌≤◌, ◌≡◌, refl, ap, ap₂, not, sym, ◌∙◌, Bool, true, false, List, [], ◌∷◌, ◌++◌,
  length, take, drop, All, ◌==◌, ==_iff, if◌then◌else◌, arith, append-nil, take-append, drop-append,
  length-append,
}
use ihslib.Hid.Delta.{delta_loop, mask_size, compute_delta}
use ihslib.Hid.Bits.{Byte, has_bit, zeros, length-zeros, zeros-Byte, has_bit-zeros}
use ihslib.Hid.Marks.{
  changes, marks, length-marks, marked, marked-Byte, length-marked, has_bit-marked, has_bit-marks,
  delta_loop_lem,
}

-- What a receiver does from the byte `i` on: a byte with its bit set is taken from those that
-- changed, and any other is kept.
unfoldable pub patch : ℕ → List ℕ → List ℕ → List ℕ → List ℕ
patch i mask changed [] = []
patch i mask [] (p ∷ previous) = p ∷ previous
patch i mask (c ∷ changed) (p ∷ previous) =
    if has_bit mask i
    then c ∷ patch (suc i) mask changed previous
    else p ∷ patch (suc i) mask (c ∷ changed) previous

-- A whole delta, its mask in front.
unfoldable pub apply_delta : ℕ → List ℕ → List ℕ → List ℕ
unfolding patch
apply_delta report_length bytes previous =
    patch 0 (take (mask_size report_length) bytes) (drop (mask_size report_length) bytes) previous

patch_nil : (i : ℕ) (mask previous : List ℕ) → patch i mask [] previous ≡ previous
unfolding patch
patch_nil i mask [] = refl
patch_nil i mask (p ∷ previous) = refl

patch_keep :
    (i p : ℕ) (mask changed previous : List ℕ)
    → has_bit mask i ≡ false
    → patch i mask changed (p ∷ previous) ≡ p ∷ patch (suc i) mask changed previous
unfolding patch
patch_keep i p mask [] previous h = ap (λ l. p ∷ l) (sym (patch_nil (suc i) mask previous))
patch_keep i p mask (c ∷ changed) previous h = rw h

patch_step :
    (same : Bool) (i p c : ℕ) (mask changed previous : List ℕ)
    → has_bit mask i ≡ not same
    → patch i mask (if same then changed else c ∷ changed) (p ∷ previous)
      ≡ (if same then p else c) ∷ patch (suc i) mask changed previous
unfolding patch
patch_step true i p c mask changed previous h = patch_keep i p mask changed previous h
patch_step false i p c mask changed previous h = rw h

either_byte : (p c : ℕ) → (if p == c then p else c) ≡ c
either_byte p c = ground (arith, ==_iff p c)

patch-marks :
    (i : ℕ) (previous current mask : List ℕ)
    → All Byte mask
    → i + length current ≤ 8 * length mask
    → length previous ≡ length current
    → ((j : ℕ) → i ≤ j → has_bit mask j ≡ false)
    → patch i (marks i previous current mask) (changes previous current) previous ≡ current
unfolding marks changes
patch-marks i [] [] mask h room e clear = patch_nil i mask []
patch-marks i (p ∷ previous) [] mask h room e clear = absurd (omega arith)
patch-marks i [] (c ∷ current) mask h room e clear = absurd (omega arith)
patch-marks i (p ∷ previous) (c ∷ current) mask h room e clear =
    let m = marked i p c mask in
    let later : (j : ℕ) → suc i ≤ j → has_bit m j ≡ false =
      λ j lt. has_bit-marked i p c j mask h (omega arith) ∙ ground (arith, clear j (omega arith)) in
    let rest =
      patch-marks (suc i) previous current m (marked-Byte i p c mask h)
        (omega (arith, length-marked i p c mask)) (omega arith) later in
    let bit =
      has_bit-marks (suc i) i previous current m (marked-Byte i p c mask h)
        (omega (arith, length-marked i p c mask)) (omega arith)
      ∙ has_bit-marked i p c i mask h (omega arith) in
    patch_step (p == c) i p c (marks (suc i) previous current m) (changes previous current) previous
      (bit ∙ ground (arith, clear i (omega arith)))
    ∙ ap₂ (λ x l. x ∷ l) (either_byte p c) rest

module _ (previous current : List ℕ) (report_length : ℕ)
    (fit : length current ≤ report_length) where
  room : 0 + length current ≤ 8 * length (zeros (mask_size report_length))
  unfolding mask_size
  room = omega (arith, length-zeros (mask_size report_length))

  compute_delta_lem :
      compute_delta previous current report_length
      ≡ marks 0 previous current (zeros (mask_size report_length)) ++ changes previous current
  unfolding compute_delta
  compute_delta_lem =
      ap (delta_loop 0 previous current) (sym (append-nil (zeros (mask_size report_length))))
      ∙ delta_loop_lem 0 previous current (zeros (mask_size report_length)) [] room

  -- The delta between two states of one length, no longer than a report, turns the first into the
  -- second.
  pub apply_delta-compute_delta :
      length previous ≡ length current
      → apply_delta report_length (compute_delta previous current report_length) previous ≡ current
  unfolding apply_delta
  apply_delta-compute_delta e =
      let blank = zeros (mask_size report_length) in
      let mask = marks 0 previous current blank in
      let n = length-marks 0 previous current blank ∙ length-zeros (mask_size report_length) in
      rw
        (
          compute_delta_lem,
          take-append (mask_size report_length) mask (changes previous current) n,
          drop-append (mask_size report_length) mask (changes previous current) n,
        )
        (patch-marks 0 previous current blank (zeros-Byte (mask_size report_length)) room e
          (λ j le. has_bit-zeros (mask_size report_length) j))

  length-changes : (ps cs : List ℕ) → length (changes ps cs) ≤ length cs
  unfolding changes
  length-changes ps [] = omega arith
  length-changes [] (c ∷ cs) = omega arith
  length-changes (p ∷ ps) (c ∷ cs) = ground (arith, length-changes ps cs)

  -- It is no longer than the bytes that the holder reserves for it.
  pub length-compute_delta :
      length (compute_delta previous current report_length)
      ≤ mask_size report_length + length current
  length-compute_delta =
      let blank = zeros (mask_size report_length) in
      rw compute_delta_lem (
        omega (
          arith,
          length-append (marks 0 previous current blank) (changes previous current),
          length-marks 0 previous current blank,
          length-zeros (mask_size report_length),
          length-changes previous current,
        ))
