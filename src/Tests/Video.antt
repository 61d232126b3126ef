-- ===== src/Tests/Video.antt =====
-- src/session/channels/video/frame_nal.c: fragments with runs of zero bytes.
use ihslib.Common.{◌+◌, ◌≤◌, ◌≡◌, refl, Bool, true, false, some, [], ◌∷◌, ◌++◌, replicate, arith}
use ihslib.Buffer.Defs.{Buffer, payload}
use ihslib.Buffer.Laws.{IsValid}
use ihslib.Video.Nal.{
  append_nal, needs_start, needs_escape, is_refused, remember, nal_reserve, nal_bytes, escape,
}
use ihslib.Video.Escaping.{unescape, HasNoStartCode, escape_fragments}
use ihslib.Video.Append.{Appended, append_nal_lem}

-- A frame that holds the bytes 9 and 0.
abbrev frame : Buffer
frame = record {
  cells = 9 ∷ 0 ∷ replicate 30 7;
  initial_capacity = 32;
  max_capacity = 64;
  offset = 0;
  size = 2;
  suffix = 0;
}

frame-IsValid : IsValid frame
frame-IsValid = omega arith

escape_run : escape (0 ∷ 9 ∷ []) (0 ∷ 0 ∷ 1 ∷ 4 ∷ []) ≡ 0 ∷ 3 ∷ 0 ∷ 1 ∷ 4 ∷ []
unfolding escape
escape_run = refl

nal_run : nal_bytes true [] (0x65 ∷ 0 ∷ 0 ∷ 2 ∷ []) ≡ 0 ∷ 0 ∷ 0 ∷ 1 ∷ 0x65 ∷ 0 ∷ 0 ∷ 3 ∷ 2 ∷ []
unfolding nal_bytes
nal_run = refl

frame_flags :
    (needs_escape 2 ≡ true)
    × (is_refused (needs_start 2) (remember (payload frame) []) (0 ∷ 0 ∷ 1 ∷ []) ≡ false)
unfolding needs_escape needs_start is_refused remember payload
frame_flags = (refl, refl)

frame_room : 0 + (2 + nal_reserve 3) + 0 ≤ 32
unfolding nal_reserve
frame_room = omega arith

append_nal_lem_example :
    (result : Bool) × (d : Buffer) × (append_nal 7 2 frame (0 ∷ 0 ∷ 1 ∷ []) ≡ some (result, d))
    × Appended 7 frame frame-IsValid (omega arith) 2 (0 ∷ 0 ∷ 1 ∷ []) result d
append_nal_lem_example =
    append_nal_lem 7 frame frame-IsValid (omega arith) 2 (0 ∷ 0 ∷ 1 ∷ []) frame_room

escape_fragments_example :
    (unescape [] (escape [] (0 ∷ 0 ∷ []) ++ escape (remember (escape [] (0 ∷ 0 ∷ [])) []) (1 ∷ []))
      ≡ (0 ∷ 0 ∷ []) ++ (1 ∷ []))
    × HasNoStartCode []
        (escape [] (0 ∷ 0 ∷ []) ++ escape (remember (escape [] (0 ∷ 0 ∷ [])) []) (1 ∷ []))
escape_fragments_example = escape_fragments [] (0 ∷ 0 ∷ []) (1 ∷ [])
