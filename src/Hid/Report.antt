-- ===== src/Hid/Report.antt =====
-- src/hid/report.c, report.h: the holder that gathers a device's reports for one message. An array
-- list is the list of its items. `last_sent` and `pending_current` are the bytes in use of the two
-- scratch buffers, which are allocated just where `buffer_capacity` is not 0. The message's report
-- count is set again when the message is taken, and is left out. The result none is a failed
-- assertion, or a write outside the buffer.
use ihslib.Common.{
  ℕ, ◌+◌, Bool, true, false, not, ◌&&◌, Option, none, some, List, [], ◌∷◌, ◌++◌, length, replicate,
  ltb, leb, ◌==◌, if◌then◌else◌, slice,
}
use ihslib.Buffer.Defs.{Buffer, ◌>>=◌, init, clear, pointer_at, copy_to, ensure_max_size}
use ihslib.Hid.Crc32.{crc32}
use ihslib.Hid.Delta.{mask_size, compute_delta, mark_all}

-- `CHIDDeviceInputReport` without its data pointer: a full report with its length, or a delta with
-- its length, the checksum and the length of the state.
pub data Item : Type 0 where
  full_report : ℕ → Item
  delta_report : ℕ → ℕ → ℕ → Item

-- A report as it is sent, with its bytes.
pub data Report : Type 0 where
  full : List ℕ → Report
  delta : List ℕ → ℕ → ℕ → Report

-- `IHS_HIDReportHolder`.
pub record Holder : Type 0 where
  pub data_buffer : Buffer
  pub report_items : List Item
  pub report_offsets : List ℕ
  pub report_length : ℕ
  pub last_sent : List ℕ
  pub pending_current : List ℕ
  pub buffer_capacity : ℕ

-- `IHS_HIDReportHolderInit`.
unfoldable pub init_holder : Holder
unfolding init
init_holder = record {
  data_buffer = init 256 8192;
  report_items = [];
  report_offsets = [];
  report_length = 0;
  last_sent = [];
  pending_current = [];
  buffer_capacity = 0;
}

-- `IHS_HIDReportHolderSetReportLength`.
unfoldable pub set_report_length : ℕ → Holder → Holder
set_report_length n h = record h { report_length = n }

-- `Stash`.
unfoldable pub stash : List ℕ → Holder → Holder
stash current h = record h {
  pending_current = current;
  buffer_capacity =
      if ltb h.buffer_capacity (length current) then length current else h.buffer_capacity;
}

-- `memcmp` over two states of one length.
unfoldable pub is_same : List ℕ → List ℕ → Bool
is_same [] [] = true
is_same [] (y ∷ ys) = false
is_same (x ∷ xs) [] = false
is_same (x ∷ xs) (y ∷ ys) = x == y && is_same xs ys

-- `SameAsLastSent`.
unfoldable pub same_as_last_sent : Holder → List ℕ → Bool
unfolding is_same
same_as_last_sent h current =
    if not (length h.pending_current == 0)
    then is_same h.pending_current current
    else not (h.buffer_capacity == 0) && is_same h.last_sent current

-- The new item at the end of the lists, with its place in the buffer.
unfoldable pub add_item : Item → ℕ → Buffer → Holder → Holder
add_item item offset b h = record h {
  data_buffer = b;
  report_items = h.report_items ++ item ∷ [];
  report_offsets = h.report_offsets ++ offset ∷ [];
}

-- `ClearMessage`.
unfoldable pub clear_message : Bool → Holder → Holder
unfolding clear
clear_message promote_pending h = record h {
  data_buffer = clear h.data_buffer false;
  report_items = [];
  report_offsets = [];
  last_sent =
      if promote_pending && ltb 0 (length h.pending_current)
      then h.pending_current
      else h.last_sent;
  pending_current = [];
}

-- `IHS_HIDReportHolderResetMessage`.
unfoldable pub reset_message : Holder → Holder
unfolding clear_message
reset_message h = clear_message true h

-- The report of an item at its offset.
unfoldable pub bind_item : Buffer → Item → ℕ → Report
bind_item b (full_report len) offset = full (slice (b.offset + offset) len b.cells)
bind_item b (delta_report len crc size) offset =
    delta (slice (b.offset + offset) len b.cells) crc size

-- The loop of `IHS_HIDReportHolderGetMessage`.
unfoldable pub bind_items : Buffer → List Item → List ℕ → List Report
unfolding bind_item
bind_items b [] offsets = []
bind_items b (item ∷ items) [] = []
bind_items b (item ∷ items) (offset ∷ offsets) =
    bind_item b item offset ∷ bind_items b items offsets

-- The reports of the message that `IHS_HIDReportHolderGetMessage` returns, none where it is NULL.
unfoldable pub get_message : Holder → List Report
unfolding bind_items
get_message h = bind_items h.data_buffer h.report_items h.report_offsets

-- `dataBuffer.size += n`.
unfoldable pub commit : Buffer → ℕ → Buffer
commit b n = record b { size = b.size + n }

-- The end of a delta: its bytes count, and the item names the state's checksum and length.
unfoldable pub put_delta : List ℕ → List ℕ → Buffer → Holder → Holder
unfolding commit add_item crc32
put_delta bytes current b h =
    add_item (delta_report (length bytes) (crc32 current) (length current)) h.data_buffer.size
      (commit b (length bytes)) h

module _ (junk : ℕ) where
  -- Bytes that are written behind the data, into `reserve` bytes, and do not count as data yet.
  unfoldable pub stage : Buffer → ℕ → List ℕ → Option Buffer
  unfolding ensure_max_size pointer_at copy_to
  stage b reserve bytes = ensure_max_size junk b (b.size + reserve) >>= λ c.
      pointer_at c c.size >>= λ i. copy_to c i bytes

  -- The end of `AddFull` and of a delta that does not pay: the full state at the offset.
  unfoldable pub put_full : List ℕ → Holder → Option Holder
  unfolding stage commit add_item
  put_full current h = stage h.data_buffer (length current) current >>= λ b.
      some
        (add_item (full_report (length current)) h.data_buffer.size (commit b (length current)) h)

  -- `AddFull`; `force` is false in `IHS_HIDReportHolderAddFull` and true in
  -- `IHS_HIDReportHolderAddFullForced`.
  unfoldable pub add_full : Bool → List ℕ → Holder → Option Holder
  unfolding put_full same_as_last_sent stash
  add_full force current h =
      if ltb h.report_length (length current)
      then none
      else if not force && same_as_last_sent h current
      then some h
      else put_full current (stash current h)

  -- `IHS_HIDReportHolderReplaceWithFullForced`.
  unfoldable pub replace_with_full : List ℕ → Holder → Option Holder
  unfolding add_full clear_message
  replace_with_full current h = add_full true current (clear_message false h)

  -- `IHS_HIDReportHolderAddForcedFullMaskDelta`.
  unfoldable pub add_forced_full_mask_delta : List ℕ → Holder → Option Holder
  unfolding put_delta stage stash mask_size mark_all
  add_forced_full_mask_delta current h =
      let mask = mark_all 0 (length current) (replicate (mask_size h.report_length) 0) in
      if ltb h.report_length (length current)
      then none
      else stage h.data_buffer (mask_size h.report_length + length current) (mask ++ current)
        >>= λ b. some (put_delta (mask ++ current) current b (stash current h))

  -- `IHS_HIDReportHolderAddDelta`.
  unfoldable pub add_delta : List ℕ → List ℕ → Holder → Option Holder
  unfolding put_delta put_full stage stash mask_size compute_delta
  add_delta previous current h =
      let bytes = compute_delta previous current h.report_length in
      let most = mask_size h.report_length + length current in
      stage h.data_buffer most bytes >>= λ b.
      if ltb most (length bytes)
      then none
      else if leb (length current) (length bytes + 8)
      then put_full current (record (stash current h) { data_buffer = b })
      else some (put_delta bytes current b (stash current h))
