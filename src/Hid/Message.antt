-- ===== src/Hid/Message.antt =====
-- src/hid/report.c: a holder's message leaves the host with the state of its latest report.
use ihslib.Common.{
  ap₂, ℕ, ◌+◌, ◌≡◌, refl, ap, ◌∙◌, some, List, [], ◌∷◌, ◌++◌, length, slice, arith, ==_self,
}
use ihslib.Buffer.Defs.{Buffer}
use ihslib.Hid.Crc32.{crc32}
use ihslib.Hid.Report.{Item, full_report, delta_report, full, delta, bind_item, bind_items, commit}
use ihslib.Hid.Staged.{IsStore, Staged}
use ihslib.Hid.Room.{IsGrowable, commit-IsGrowable}
use ihslib.Hid.Patch.{apply_delta}
use ihslib.Hid.Chain.{
  receive, play, play-append, item_length, InRange, InRange-append, bind_items-append,
}

module _ (junk m : ℕ) where
  -- The items in a buffer take the host from one state to another.
  pub record Plays (host state : List ℕ) (b : Buffer) (items : List Item) (offsets : List ℕ)
      : Type 0 where
    pub store : IsStore b
    pub growable : IsGrowable junk b
    pub range : InRange b.size items offsets
    pub played : play m (bind_items b items offsets) host ≡ some state

  module _ {host state : List ℕ} {b d : Buffer} {items : List Item} {offsets bytes : List ℕ}
      (p : Plays host state b items offsets) (s : Staged b bytes d) (g : IsGrowable junk d) where
    bind_items_kept :
        (its : List Item) (ofs : List ℕ)
        → InRange b.size its ofs
        → bind_items d its ofs ≡ bind_items b its ofs
    unfolding bind_items bind_item
    bind_items_kept [] [] h = refl
    bind_items_kept [] (o ∷ ofs) h = refl
    bind_items_kept (x ∷ its) [] h = refl
    bind_items_kept (full_report len ∷ its) (o ∷ ofs) h =
        ap₂ (λ bytes l. full bytes ∷ l) (s.before o len h.0) (bind_items_kept its ofs h.1)
    bind_items_kept (delta_report len crc size ∷ its) (o ∷ ofs) h =
        ap₂ (λ bytes l. delta bytes crc size ∷ l) (s.before o len h.0) (bind_items_kept its ofs h.1)

    -- Bytes that do not count leave the message alone.
    pub staged-Plays : Plays host state d items offsets
    staged-Plays = record {
      store = s.store;
      growable = g;
      range = rw s.size_eq p.range;
      played = ap (λ l. play m l host) (bind_items_kept items offsets p.range) ∙ p.played;
    }

    -- With their item they are one report more.
    pub put-Plays :
        (item : Item) (next : List ℕ)
        → item_length item ≡ length bytes
        → receive m (bind_item (commit d (length bytes)) item b.size) state ≡ some next
        → Plays host next (commit d (length bytes)) (items ++ item ∷ []) (offsets ++ b.size ∷ [])
    unfolding commit
    put-Plays item next e r = record {
      store = s.raised;
      growable = commit-IsGrowable junk d (length bytes) g;
      range =
          InRange-append b.size (d.size + length bytes) items offsets item b.size
            (omega (arith, s.size_eq)) (omega (arith, s.size_eq, e)) p.range;
      played =
          ap (λ l. play m l host)
            (bind_items-append b (commit d (length bytes)) s.before items offsets item b.size
              p.range)
          ∙ play-append m (bind_items b items offsets)
              (bind_item (commit d (length bytes)) item b.size) host state p.played
          ∙ r;
    }

    bytes_at : slice (d.offset + b.size) (length bytes) d.cells ≡ bytes
    bytes_at = rw s.offset_eq s.self

    pub receive_full :
        receive m (bind_item (commit d (length bytes)) (full_report (length bytes)) b.size) state
        ≡ some bytes
    unfolding receive bind_item commit
    receive_full = ap some bytes_at

    pub receive_delta :
        (next : List ℕ)
        → apply_delta m bytes state ≡ next
        → receive m
            (bind_item
              (commit d (length bytes))
              (delta_report (length bytes) (crc32 next) (length next))
              b.size)
            state
          ≡ some next
    unfolding receive bind_item commit
    receive_delta next e = rw (bytes_at, e, ==_self (length next), ==_self (crc32 next)) refl
