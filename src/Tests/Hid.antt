-- ===== src/Tests/Hid.antt =====
-- Runs of the report holder, and its theorems at concrete inputs.
use ihslib.Common.{ℕ, ◌≡◌, refl, false, splice, some, List, [], ◌∷◌, arith}
use ihslib.Buffer.Defs.{init, ◌>>=◌}
use ihslib.Hid.Crc32.{crc32}
use ihslib.Hid.Delta.{compute_delta, mask_size}
use ihslib.Hid.Patch.{apply_delta, apply_delta-compute_delta}
use ihslib.Hid.Report.{Holder, init_holder, set_report_length, full, delta, get_message}
use ihslib.Hid.Calls.{
  Call, report_full, replace, report_delta, run, deliver_all, final_all, deliver_all-final_all,
}

-- A state of sixteen bytes with two buttons in the bytes 1 and 9.
abbrev pad : ℕ → ℕ → List ℕ
pad a b = 0 ∷ a ∷ 0 ∷ 0 ∷ 0 ∷ 0 ∷ 0 ∷ 0 ∷ 0 ∷ b ∷ 0 ∷ 0 ∷ 0 ∷ 0 ∷ 0 ∷ 0 ∷ []

pressed : compute_delta (pad 0 0) (pad 5 7) 16 ≡ 2 ∷ 2 ∷ 5 ∷ 7 ∷ []
unfolding compute_delta
pressed = refl

apply_delta-compute_delta_example :
    apply_delta 16 (compute_delta (pad 0 0) (pad 5 7) 16) (pad 0 0) ≡ pad 5 7
apply_delta-compute_delta_example =
    apply_delta-compute_delta (pad 0 0) (pad 5 7) 16 (omega arith) refl

-- A press and its release in one message: the release is a delta again, and is not dropped.
abbrev press_release : List Call
press_release = report_full false (pad 0 0) ∷ report_delta (pad 5 0) ∷ report_delta (pad 0 0) ∷ []

press_release_run :
    (run 0 press_release (pad 0 0) (set_report_length 16 init_holder) >>= λ h. some (get_message h))
    ≡ some (
        full (pad 0 0)
        ∷ delta (2 ∷ 0 ∷ 5 ∷ []) (crc32 (pad 5 0)) 16
        ∷ delta (2 ∷ 0 ∷ 0 ∷ []) (crc32 (pad 0 0)) 16
        ∷ [])
unfolding run set_report_length init_holder init get_message crc32 splice
press_release_run = refl

abbrev two_messages : List (List Call)
two_messages = press_release ∷ (report_delta (pad 1 2) ∷ replace (pad 3 4) ∷ []) ∷ []

deliver_all-final_all_example :
    (h : Holder) × (deliver_all 0 two_messages
        (pad 0 0)
        (pad 0 0)
        (set_report_length 16 init_holder)
      ≡ some (final_all two_messages (pad 0 0), h))
deliver_all-final_all_example =
    deliver_all-final_all 0 16 16 (omega arith) (omega arith) two_messages (pad 0 0) refl
      (unfold mask_size in omega arith)
