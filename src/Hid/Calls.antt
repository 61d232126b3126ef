-- ===== src/Hid/Calls.antt =====
-- src/hid/report.c: the calls of a device on its holder, message by message.
use native.Mathlib.Nat.{suc-mul}
use ihslib.Common.{
  true, ℕ, suc, ◌+◌, ◌*◌, ◌≤◌, ◌<◌, ◌≡◌, refl, sym, subst, Bool, Option, some, List, [], ◌∷◌,
  length, All, arith,
}
use ihslib.Buffer.Defs.{◌>>=◌, init, clear, start_capacity}
use ihslib.Hid.Delta.{mask_size}
use ihslib.Hid.Report.{
  bind_items, Holder, init_holder, set_report_length, clear_message, reset_message, get_message,
  add_full, replace_with_full, add_delta,
}
use ihslib.Hid.Chain.{play}
use ihslib.Hid.Sync.{InSync, most, Advances, add_full_lem, replace_lem, add_delta_lem, clear-Plays}

-- What a device does with its holder, with its new state.
pub data Call : Type 0 where
  report_full : Bool → List ℕ → Call
  replace : List ℕ → Call
  report_delta : List ℕ → Call

abbrev pub target : Call → List ℕ
target (report_full force current) = current
target (replace current) = current
target (report_delta current) = current

-- A call of a device in a state.
unfoldable pub call : ℕ → Call → List ℕ → Holder → Option Holder
unfolding add_full replace_with_full add_delta
call junk (report_full force current) state h = add_full junk force current h
call junk (replace current) state h = replace_with_full junk current h
call junk (report_delta current) state h = add_delta junk state current h

-- Calls in a row.
unfoldable pub run : ℕ → List Call → List ℕ → Holder → Option Holder
unfolding call
run junk [] state h = some h
run junk (c ∷ calls) state h = call junk c state h >>= run junk calls (target c)

unfoldable pub final : List Call → List ℕ → List ℕ
final [] state = state
final (c ∷ calls) state = final calls (target c)

-- Messages in a row: the calls of each, what the host makes of it, and the holder's reset. The
-- result is the host's state, with the holder.
unfoldable pub deliver_all :
    ℕ → List (List Call) → List ℕ → List ℕ → Holder → Option (List ℕ × Holder)
unfolding run play get_message reset_message final
deliver_all junk [] host state h = some (host, h)
deliver_all junk (calls ∷ batches) host state h = run junk calls state h >>= λ h'.
    play h'.report_length (get_message h') host >>= λ host'.
    deliver_all junk batches host' (final calls state) (reset_message h')

-- The device's last state.
unfoldable pub final_all : List (List Call) → List ℕ → List ℕ
unfolding final
final_all [] state = state
final_all (calls ∷ batches) state = final_all batches (final calls state)

-- Calls with states of `n` bytes, few enough for one message.
abbrev pub Fits : ℕ → ℕ → List Call → Type 0
Fits m n calls = All (λ c. length (target c) ≡ n) calls × (length calls * (mask_size m + n) ≤ 8192)

module _ (junk m n : ℕ) (pos : 0 < n) (fit : n ≤ m) where
  call_lem :
      (c : Call) (host state : List ℕ) (h : Holder)
      → InSync junk m n pos fit host state h
      → length (target c) ≡ n
      → h.data_buffer.size + most junk m n pos fit ≤ 8192
      → Advances junk m n pos fit host (target c) h (call junk c state h)
  unfolding call
  call_lem (report_full force current) host state h s e room =
      add_full_lem junk m n pos fit force host state current h s e (omega arith)
  call_lem (replace current) host state h s e room =
      replace_lem junk m n pos fit host state current h s e (omega arith)
  call_lem (report_delta current) host state h s e room =
      add_delta_lem junk m n pos fit host state current h s e room

  run_lem :
      (calls : List Call) (host state : List ℕ) (h : Holder)
      → InSync junk m n pos fit host state h
      → All (λ c. length (target c) ≡ n) calls
      → h.data_buffer.size + length calls * (mask_size m + n) ≤ 8192
      → (h' : Holder) × (run junk calls state h ≡ some h')
        × InSync junk m n pos fit host (final calls state) h'
  unfolding run final
  run_lem [] host state h s all room = (h, refl, s)
  run_lem (c ∷ calls) host state h s all room =
      let k = length calls * (mask_size m + n) in
      let split : suc (length calls) * (mask_size m + n) ≡ k + (mask_size m + n) =
        suc-mul (length calls) (mask_size m + n) in
      let t = call_lem c host state h s all.0 (omega (arith, split)) in
      let r = run_lem calls host (target c) t.0 t.2 all.1 (omega (arith, split, t.3)) in
      (r.0, rw t.1 r.1, r.2)

  -- After a message the host has what the device has, and the next one starts empty.
  reset_message-InSync :
      (host state : List ℕ) (h : Holder)
      → InSync junk m n pos fit host state h
      → InSync junk m n pos fit state state (reset_message h)
  unfolding reset_message clear_message
  reset_message-InSync host state h s = record {
    report_length_eq = s.report_length_eq;
    size_eq = s.size_eq;
    message = clear-Plays junk m n pos fit host state true h s state;
    pending = λ filled. absurd (omega (arith, filled));
    last = λ empty filled. ground (arith, s.pending, s.last, filled);
  }

  init_holder-InSync :
      (state : List ℕ)
      → length state ≡ n
      → InSync junk m n pos fit state state (set_report_length m init_holder)
  unfolding set_report_length init_holder play start_capacity bind_items
  init_holder-InSync state e = record {
    report_length_eq = refl;
    size_eq = e;
    message = record {
      store = record {
        fits = omega arith;
        within = omega arith;
        bounded = omega arith;
        small = omega arith;
      };
      growable = record {
        offset_zero = refl;
        suffix_zero = refl;
        limit = refl;
        doublings = 5;
        doubling = refl;
        within = omega arith;
      };
      range = tt;
      played = refl;
    };
    pending = λ filled. absurd (omega (arith, filled));
    last = λ empty filled. absurd (omega (arith, filled));
  }

  deliver_all-InSync :
      (batches : List (List Call)) (state : List ℕ) (h : Holder)
      → InSync junk m n pos fit state state h
      → h.data_buffer.size ≡ 0
      → All (Fits m n) batches
      → (h' : Holder) × (deliver_all junk batches state state h
          ≡ some (final_all batches state, h'))
  unfolding deliver_all final_all
  deliver_all-InSync [] state h s empty all = (h, refl)
  deliver_all-InSync (calls ∷ batches) state h s empty all =
      let r = run_lem calls state state h s all.0.0 (omega (arith, empty, all.0.1)) in
      let next = reset_message-InSync state (final calls state) r.0 r.2 in
      let rest =
        deliver_all-InSync batches (final calls state) (reset_message r.0) next (reset_empty r.0)
          all.1 in
      (rest.0, rw r.1 (rw (played r.0 r.2) rest.1))
    where
      reset_empty : (g : Holder) → (reset_message g).data_buffer.size ≡ 0
      reset_empty g = unfold reset_message clear_message clear in refl

      played :
          (g : Holder)
          → InSync junk m n pos fit state (final calls state) g
          → play g.report_length (get_message g) state ≡ some (final calls state)
      played g q =
          subst (λ k. play k (get_message g) state ≡ some (final calls state))
            (sym q.report_length_eq) q.message.played

  -- On a fresh holder whose reports are at least as long as the device's states, which all have
  -- one length above 0, whatever reports the device adds to its messages, full ones, forced ones,
  -- replacements or deltas from its last state, where each message has room for its reports, no
  -- assertion fails, and the host that had the device's first state has its last one.
  pub deliver_all-final_all :
      (batches : List (List Call)) (state : List ℕ)
      → length state ≡ n
      → All (Fits m n) batches
      → (h : Holder) × (deliver_all junk batches state state (set_report_length m init_holder)
          ≡ some (final_all batches state, h))
  deliver_all-final_all batches state e all =
      deliver_all-InSync batches state (set_report_length m init_holder)
        (init_holder-InSync state e) (unfold set_report_length init_holder init in refl) all
