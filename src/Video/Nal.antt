-- ===== src/Video/Nal.antt =====
-- src/session/channels/video/frame_nal.c: a fragment goes into the frame's buffer, with emulation
-- prevention. The two bytes before the write position are the head of `history`, the bytes that the
-- frame holds, the latest first. The result none is a failed assertion of the buffer, or a write
-- outside its allocation.
use ihslib.Common.{
  ℕ, ◌+◌, ◌-◌, ◌*◌, ◌/◌, ◌%◌, ◌^◌, Bool, true, false, not, ◌&&◌, ◌||◌, Option, some, List, [], ◌∷◌,
  ◌++◌, length, take, drop, ltb, leb, ◌==◌, if◌then◌else◌,
}
use ihslib.Buffer.Defs.{Buffer, ◌>>=◌, payload, pointer_at, copy_to, ensure_max_size, append_mem}

-- `VideoFrameFlagNeedStartSequence` and `VideoFrameFlagNeedEscape`.
unfoldable pub needs_start : ℕ → Bool
needs_start flags = flags % 2 == 1

unfoldable pub needs_escape : ℕ → Bool
needs_escape flags = flags / 2 % 2 == 1

-- The history after more bytes.
unfoldable pub remember : List ℕ → List ℕ → List ℕ
remember [] history = history
remember (x ∷ bytes) history = remember bytes (x ∷ history)

-- `history >= 2 && !dst[-2] && !dst[-1]`.
unfoldable pub ends_in_zeros : List ℕ → Bool
ends_in_zeros [] = false
ends_in_zeros (x ∷ []) = false
ends_in_zeros (x ∷ y ∷ history) = x == 0 && y == 0

-- The escaping loop.
unfoldable pub escape : List ℕ → List ℕ → List ℕ
unfolding ends_in_zeros
escape history [] = []
escape history (value ∷ bytes) =
    let inserted = 3 ∷ value ∷ escape (value ∷ 3 ∷ history) bytes in
    let plain = value ∷ escape (value ∷ history) bytes in
    if leb value 3 && ends_in_zeros history then inserted else plain

abbrev pub start_sequence : List ℕ
start_sequence = 0 ∷ 0 ∷ 0 ∷ 1 ∷ []

-- What goes into the buffer: behind a start sequence the first three bytes as they are.
unfoldable pub nal_bytes : Bool → List ℕ → List ℕ → List ℕ
unfolding escape remember
nal_bytes false history bytes = escape history bytes
nal_bytes true history bytes =
    start_sequence
    ++ (take 3 bytes
        ++ escape (remember (take 3 bytes) (remember start_sequence history)) (drop 3 bytes))

-- A continuation whose first byte may need the two bytes before it, of which the frame lacks one.
unfoldable pub lacks_history : List ℕ → Bool
lacks_history [] = true
lacks_history (x ∷ []) = x == 0
lacks_history (x ∷ y ∷ history) = false

unfoldable pub first_is_low : List ℕ → Bool
first_is_low [] = false
first_is_low (value ∷ bytes) = leb value 3

unfoldable pub is_refused : Bool → List ℕ → List ℕ → Bool
unfolding lacks_history first_is_low
is_refused true history [] = true
is_refused true history (value ∷ bytes) = false
is_refused false history bytes = first_is_low bytes && lacks_history history

-- `reserve` of the source.
unfoldable pub nal_reserve : ℕ → ℕ
nal_reserve len = len + len / 2 + 5

unfoldable pub exceeds_frame : Buffer → ℕ → Bool
exceeds_frame b reserve =
    ltb 0 b.max_capacity && (ltb b.max_capacity b.size || ltb (b.max_capacity - b.size) reserve)

module _ (junk : ℕ) where
  -- From `IHS_BufferPointerForAppend` on.
  unfoldable pub write_nal : Buffer → ℕ → List ℕ → Option Buffer
  unfolding ensure_max_size pointer_at copy_to
  write_nal b reserve bytes = ensure_max_size junk b (b.size + reserve) >>= λ c.
      pointer_at c c.size >>= λ i.
      copy_to c i bytes >>= λ d. some (record d { size = d.size + length bytes })

  -- `IHS_SessionVideoFrameAppendNAL`: the result, and the frame's buffer.
  unfoldable pub append_nal : ℕ → Buffer → List ℕ → Option (Bool × Buffer)
  append_nal flags b bytes =
      let start = needs_start flags in
      let history = remember (payload b) [] in
      let as_is = append_mem junk b bytes >>= λ d. some (true, d) in
      let escaped =
        write_nal b (nal_reserve (length bytes)) (nal_bytes start history bytes) >>= λ d.
        some (true, d) in
      if not (needs_escape flags)
      then if length bytes == 0 then some (true, b) else as_is
      else if is_refused start history bytes
          || (ltb ((2 ^ 64 - 1 - 5) / 3 * 2) (length bytes)
              || exceeds_frame b (nal_reserve (length bytes)))
      then some (false, b)
      else escaped
