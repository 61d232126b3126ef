-- ===== src/Hid/Delta.antt =====
-- src/hid/report.c: the bytes that changed between two states, behind a mask with a bit for each.
use Prim.Native.Nat.{bit_or}
use ihslib.Common.{
  ℕ, zero, suc, ◌+◌, ◌/◌, ◌%◌, ◌^◌, List, [], ◌∷◌, ◌++◌, get_or, set, replicate, ◌==◌,
  if◌then◌else◌,
}

-- `delta[i >> 3] |= 1 << (i % 8)`, in the bytes that are written so far.
unfoldable pub mark : ℕ → List ℕ → List ℕ
mark i delta = set delta (i / 8) (bit_or (get_or delta (i / 8) 0) (2 ^ (i % 8)))

-- The loop of `ComputeDelta` from the byte `i` on, with the bytes written so far.
unfoldable pub delta_loop : ℕ → List ℕ → List ℕ → List ℕ → List ℕ
unfolding mark
delta_loop i previous [] delta = delta
delta_loop i [] (c ∷ current) delta = delta
delta_loop i (p ∷ previous) (c ∷ current) delta =
    delta_loop (suc i) previous current (if p == c then delta else mark i delta ++ c ∷ [])

-- The size of the mask, `(reportLen + 7) >> 3`.
unfoldable pub mask_size : ℕ → ℕ
mask_size report_length = (report_length + 7) / 8

-- `ComputeDelta`: what it writes, whose length it returns.
unfoldable pub compute_delta : List ℕ → List ℕ → ℕ → List ℕ
unfolding delta_loop mask_size
compute_delta previous current report_length =
    delta_loop 0 previous current (replicate (mask_size report_length) 0)

-- The loop of `IHS_HIDReportHolderAddForcedFullMaskDelta`: marks for `n` bytes from the byte `i` on.
unfoldable pub mark_all : ℕ → ℕ → List ℕ → List ℕ
unfolding mark
mark_all i zero delta = delta
mark_all i (suc n) delta = mark_all (suc i) n (mark i delta)
