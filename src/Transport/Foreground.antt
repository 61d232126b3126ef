-- ===== src/Transport/Foreground.antt =====
-- src/session/lifecycle.c: foreground requests and the worker's catching up with them.
use ihslib.Common.{
  ℕ, zero, suc, ◌%◌, ◌^◌, ◌≤◌, ◌<◌, ◌≡◌, refl, sym, ap, ◌∙◌, Bool, true, false, not, ==_iff, add32,
  arith, inl, inr, Bool-cases,
}
use ihslib.Transport.State.{Transport, emit}
use ihslib.Transport.Lifecycle.{
  apply_edge, apply_edges, change_foreground, next_edge, set_client_paused, is_background,
  set_foreground, needs_edge, request_edge, pause_connection, resume_connection, restart_lease,
  send_resume,
}

-- The client's pause flag is the parity of the last change that the worker applied.
pub record IsInStep (s : Transport) : Type 0 where
  pub paused_eq : s.client_paused ≡ is_background s.applied_generation

-- `behind` more changes lead from the applied generation to the requested one.
pub record IsBehind (behind requested : ℕ) (s : Transport) : Type 0 where
  pub applied_lt : s.applied_generation < 2 ^ 32
  pub behind_lt : behind < 2 ^ 32
  pub requested_eq : requested ≡ add32 s.applied_generation behind

change_foreground-client_paused :
    (fg : Bool) (s : Transport) → (change_foreground fg s).client_paused ≡ not fg
unfolding change_foreground set_client_paused
change_foreground-client_paused false s = ground arith
change_foreground-client_paused true s = ground arith

resume_connection-applied :
    (s : Transport) → (resume_connection s).applied_generation ≡ s.applied_generation
unfolding resume_connection restart_lease send_resume emit
resume_connection-applied s = ground arith

change_foreground-applied :
    (fg : Bool) (s : Transport) → (change_foreground fg s).applied_generation ≡ s.applied_generation
unfolding change_foreground pause_connection set_client_paused emit
change_foreground-applied false s = ground arith
change_foreground-applied true s = ground (arith, resume_connection-applied s)

apply_edge-applied :
    (s : Transport) → (apply_edge s).applied_generation ≡ add32 s.applied_generation 1
unfolding apply_edge next_edge
apply_edge-applied s = change_foreground-applied _ _

not-not : (b : Bool) → not (not b) ≡ b
not-not true = refl
not-not false = refl

apply_edge-IsInStep : (s : Transport) → IsInStep (apply_edge s)
unfolding apply_edge
apply_edge-IsInStep s = record {
  paused_eq =
      change_foreground-client_paused (not (is_background (add32 s.applied_generation 1)))
        (next_edge s)
      ∙ not-not (is_background (add32 s.applied_generation 1))
      ∙ ap is_background (sym (apply_edge-applied s));
}

apply_edge-IsBehind :
    (k requested : ℕ) (s : Transport)
    → IsBehind (suc k) requested s
    → IsBehind k requested (apply_edge s)
apply_edge-IsBehind k requested s b = ground (arith, b, apply_edge-applied s)

-- Where at most `rounds` changes are outstanding and the pause flag agrees with the last applied one,
-- the worker applies them all, and the client's pause flag is what the last request asked for. The
-- generations are 32-bit words that may wrap.
pub apply_edges_lem :
    (rounds behind requested : ℕ) (s : Transport)
    → behind ≤ rounds
    → IsBehind behind requested s
    → IsInStep s
    → (apply_edges rounds requested s).applied_generation ≡ requested
      × (apply_edges rounds requested s).client_paused ≡ is_background requested
unfolding apply_edges
apply_edges_lem zero behind requested s le b v = ground (arith, b, v)
apply_edges_lem (suc n) zero requested s le b v =
    ground (arith, b, v, ==_iff s.applied_generation requested)
apply_edges_lem (suc n) (suc k) requested s le b v = ground (
  arith,
  ==_iff s.applied_generation requested,
  b,
  apply_edges_lem n k requested (apply_edge s) (omega arith) (apply_edge-IsBehind k requested s b)
      (apply_edge-IsInStep s),
)

needs_edge-false : (fg : Bool) (g : ℕ) → needs_edge fg g ≡ false → is_background g ≡ not fg
unfolding needs_edge
needs_edge-false true g e = e
needs_edge-false false g e = ground (arith, e)

needs_edge-true : (fg : Bool) (g : ℕ) → needs_edge fg g ≡ true → is_background (add32 g 1) ≡ not fg
unfolding needs_edge is_background
needs_edge-true true g e = ground (arith, e, ==_iff (g % 2) 1, ==_iff (add32 g 1 % 2) 1)
needs_edge-true false g e = ground (arith, e, ==_iff (g % 2) 1, ==_iff (add32 g 1 % 2) 1)

request_edge-IsBehind :
    (k : ℕ) (s : Transport)
    → k < 32
    → IsBehind k s.lifecycle_generation s
    → IsBehind (suc k) (add32 s.lifecycle_generation 1) (request_edge s)
unfolding request_edge
request_edge-IsBehind k s lt b = ground (arith, b)

request_edge-IsInStep : (s : Transport) → IsInStep s → IsInStep (request_edge s)
unfolding request_edge
request_edge-IsInStep s v = record { paused_eq = v.paused_eq }

-- Where fewer than 32 changes are outstanding and the pause flag agrees with the last applied one, a
-- foreground request is what the worker's next round of changes ends up with.
pub apply_edges-set_foreground :
    (foreground : Bool) (behind : ℕ) (s : Transport)
    → behind < 32
    → IsBehind behind s.lifecycle_generation s
    → IsInStep s
    → let t = set_foreground foreground s in
      (apply_edges 32 t.lifecycle_generation t).client_paused ≡ not foreground
unfolding set_foreground
apply_edges-set_foreground foreground behind s lt b v =
    let g = s.lifecycle_generation in
    elim (Bool-cases (needs_edge foreground g)) [
      | inl e ↦ rw e (
          (apply_edges_lem 32 (suc behind) (add32 g 1) (request_edge s) (omega arith)
            (request_edge-IsBehind behind s lt b) (request_edge-IsInStep s v)).1
          ∙ needs_edge-true foreground g e)
      | inr e ↦
          rw e
            ((apply_edges_lem 32 behind g s (omega arith) b v).1 ∙ needs_edge-false foreground g e)
    ]
