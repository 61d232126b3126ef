-- ===== src/Hid/Chain.antt =====
-- src/hid/report.c: the host that applies a message report by report, and the state that it is
-- left with.
use ihslib.Common.{
  ℕ, ◌+◌, ◌≤◌, ◌≡◌, refl, sym, ap, ◌&&◌, Option, none, some, List, [], ◌∷◌, ◌++◌, length, slice,
  ◌==◌, if◌then◌else◌, arith,
}
use ihslib.Buffer.Defs.{Buffer, ◌>>=◌}
use ihslib.Buffer.Laws.{>>=-eq-some}
use ihslib.Hid.Crc32.{crc32}
use ihslib.Hid.Report.{Item, full_report, delta_report, Report, full, delta, bind_item, bind_items}
use ihslib.Hid.Patch.{apply_delta}

-- What the host does with a report: a full one replaces the state, a delta is applied to it, where
-- its length and checksum are right.
unfoldable pub receive : ℕ → Report → List ℕ → Option (List ℕ)
unfolding apply_delta crc32
receive report_length (full bytes) state = some bytes
receive report_length (delta bytes crc size) state =
    let next = apply_delta report_length bytes state in
    if length next == size && crc32 next == crc then some next else none

-- A whole message, in order.
unfoldable pub play : ℕ → List Report → List ℕ → Option (List ℕ)
unfolding receive
play report_length [] state = some state
play report_length (r ∷ reports) state =
    receive report_length r state >>= play report_length reports

pub play-append :
    (m : ℕ) (xs : List Report) (r : Report) (state next : List ℕ)
    → play m xs state ≡ some next
    → play m (xs ++ r ∷ []) state ≡ receive m r next
unfolding play
play-append m [] r state next e = last (receive m r state) (cc)
  where
    last : (o : Option (List ℕ)) → receive m r next ≡ o → (o >>= λ s. some s) ≡ receive m r next
    last none p = sym p
    last (some x) p = sym p
play-append m (x ∷ xs) r state next e =
    let p = >>=-eq-some (receive m x state) (play m xs) e in
    rw p.1 (play-append m xs r p.0 next p.2)

abbrev pub item_length : Item → ℕ
item_length (full_report len) = len
item_length (delta_report len crc size) = len

-- Each item has its offset, and its bytes lie in the data.
abbrev pub InRange : ℕ → List Item → List ℕ → Type 0
InRange size [] [] = Unit
InRange size [] (o ∷ offsets) = ⊥
InRange size (item ∷ items) [] = ⊥
InRange size (item ∷ items) (o ∷ offsets) =
    (o + item_length item ≤ size) × InRange size items offsets

module _ (b d : Buffer)
    (kept : (i n : ℕ)
      → i + n ≤ b.size
      → slice (d.offset + i) n d.cells ≡ slice (b.offset + i) n b.cells) where
  bind_item_kept :
      (item : Item) (o : ℕ)
      → o + item_length item ≤ b.size
      → bind_item d item o ≡ bind_item b item o
  unfolding bind_item
  bind_item_kept (full_report len) o le = ap full (kept o len le)
  bind_item_kept (delta_report len crc size) o le =
      ap (λ bytes. delta bytes crc size) (kept o len le)

  -- The reports of a message stay, and one more comes behind them.
  pub bind_items-append :
      (items : List Item) (offsets : List ℕ) (item : Item) (o : ℕ)
      → InRange b.size items offsets
      → bind_items d (items ++ item ∷ []) (offsets ++ o ∷ [])
        ≡ bind_items b items offsets ++ bind_item d item o ∷ []
  unfolding bind_items
  bind_items-append [] [] item o h = refl
  bind_items-append [] (p ∷ offsets) item o h = absurd h
  bind_items-append (x ∷ items) [] item o h = absurd h
  bind_items-append (x ∷ items) (p ∷ offsets) item o h =
      rw (bind_item_kept x p h.0)
        (ap (λ l. bind_item b x p ∷ l) (bind_items-append items offsets item o h.1))

pub InRange-append :
    (n m : ℕ) (items : List Item) (offsets : List ℕ) (item : Item) (o : ℕ)
    → n ≤ m
    → o + item_length item ≤ m
    → InRange n items offsets
    → InRange m (items ++ item ∷ []) (offsets ++ o ∷ [])
InRange-append n m [] [] item o le last h = (last, tt)
InRange-append n m [] (p ∷ offsets) item o le last h = absurd h
InRange-append n m (x ∷ items) [] item o le last h = absurd h
InRange-append n m (x ∷ items) (p ∷ offsets) item o le last h =
    (omega (arith, h.0), InRange-append n m items offsets item o le last h.1)
