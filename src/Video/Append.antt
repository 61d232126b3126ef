-- ===== src/Video/Append.antt =====
-- src/session/channels/video/frame_nal.c: IHS_SessionVideoFrameAppendNAL on the frame's buffer.
use ihslib.Common.{
  zero, suc, ◌∷◌, sym, take, drop, append-nil, ◌⊎◌, ◌↔◌, inl, inr, Bool-cases, Bool, ◌==◌, ℕ, ◌+◌,
  ◌-◌, ◌*◌, ◌/◌, ◌^◌, ◌≤◌, ◌<◌, ◌≡◌, refl, true, false, ◌||◌, some, List, [], ◌++◌, length, ltb,
  arith,
}
use ihslib.Buffer.Defs.{Buffer, capacity, payload}
use ihslib.Buffer.Laws.{IsValid}
use ihslib.Buffer.Writes.{reserved-Written, reserved_total, append_mem_total, append_mem-Written}
use ihslib.Video.Nal.{
  escape, append_nal, write_nal, needs_start, needs_escape, is_refused, remember, nal_reserve,
  exceeds_frame, nal_bytes, lacks_history, first_is_low,
}
use ihslib.Video.Escaping.{
  length-nal_bytes, unescape, HasNoStartCode, unescape-escape, escape-HasNoStartCode,
}

-- A fragment that cannot be escaped: a new unit without a byte, or a continuation whose first byte is at
-- most 3 in a frame that holds no byte, or a zero byte only.
abbrev pub IsStarved : Bool → List ℕ → List ℕ → Type 0
IsStarved true held bytes = bytes ≡ []
IsStarved false held [] = ⊥
IsStarved false held (x ∷ bytes) = (x ≤ 3) × ((held ≡ []) ⊎ (held ≡ 0 ∷ []))

-- What a decoder that has read `held` makes of a continuation, or of a new unit behind its start
-- sequence and its first three bytes: the fragment's bytes again, and no start code.
abbrev pub IsEscaped : Bool → List ℕ → List ℕ → List ℕ → Type 0
IsEscaped false held bytes out =
    let history = remember held [] in (unescape history out ≡ bytes) × HasNoStartCode history out
IsEscaped true held bytes out =
    let history = remember (take 3 bytes) (1 ∷ 0 ∷ 0 ∷ 0 ∷ remember held []) in
    (tail : List ℕ) × (out ≡ (0 ∷ 0 ∷ 0 ∷ 1 ∷ []) ++ (take 3 bytes ++ tail))
    × (unescape history tail ≡ drop 3 bytes)
    × HasNoStartCode history tail

lacks_longer :
    (held history : List ℕ) (x y : ℕ) → lacks_history (remember held (x ∷ y ∷ history)) ≡ false
unfolding lacks_history remember
lacks_longer [] history x y = refl
lacks_longer (z ∷ held) history x y = lacks_longer held (y ∷ history) z x

lacks_iff :
    (held : List ℕ) → (lacks_history (remember held []) ≡ true) ↔ ((held ≡ []) ⊎ (held ≡ 0 ∷ []))
unfolding lacks_history remember
lacks_iff [] = ((λ h. inl refl), (λ h. refl))
lacks_iff (zero ∷ []) = ((λ h. inr refl), (λ h. refl))
lacks_iff (suc x ∷ []) =
    ((λ h. absurd (ground (arith, h))), (λ h. elim h [ inl e ↦ cc | inr e ↦ cc ]))
lacks_iff (x ∷ y ∷ held) =
    let no = lacks_longer held [] y x in ((λ h. cc), (λ h. elim h [ inl e ↦ cc | inr e ↦ cc ]))

IsStarved-iff :
    (start : Bool) (held bytes : List ℕ)
    → (is_refused start (remember held []) bytes ≡ true) ↔ IsStarved start held bytes
unfolding is_refused first_is_low
IsStarved-iff true held [] = ((λ h. refl), (λ h. refl))
IsStarved-iff true held (x ∷ bytes) = ((λ h. cc), (λ h. cc))
IsStarved-iff false held [] = ((λ h. cc), (λ h. absurd h))
IsStarved-iff false held (x ∷ bytes) =
    let lacks = lacks_iff held in
    (
      (λ h. (ground arith, lacks.0 (ground arith))),
      (λ (low, e). let short = lacks.1 e in ground arith),
    )

nal_bytes-IsEscaped :
    (start : Bool) (held bytes : List ℕ)
    → IsEscaped start held bytes (nal_bytes start (remember held []) bytes)
unfolding nal_bytes remember
nal_bytes-IsEscaped false held bytes =
    (unescape-escape (remember held []) bytes, escape-HasNoStartCode (remember held []) bytes)
nal_bytes-IsEscaped true held bytes =
    let history = remember (take 3 bytes) (1 ∷ 0 ∷ 0 ∷ 0 ∷ remember held []) in
    (
      escape history (drop 3 bytes),
      refl,
      unescape-escape history (drop 3 bytes),
      escape-HasNoStartCode history (drop 3 bytes),
    )

module _ (junk : ℕ) (b : Buffer) (v : IsValid b) (cap : capacity b ≤ b.max_capacity) where
  write_nal_lem :
      (reserve : ℕ) (bytes : List ℕ)
      → 0 < reserve
      → length bytes ≤ reserve
      → b.offset + (b.size + reserve) + b.suffix ≤ capacity b
      → (d : Buffer) × (write_nal junk b reserve bytes ≡ some d) × (payload d ≡ payload b ++ bytes)
  unfolding write_nal
  write_nal_lem reserve bytes pos le room =
      let total = reserved_total junk b v cap reserve bytes pos le room in
      (_, total, (reserved-Written junk b reserve bytes _ v le total).2)

  within_limits :
      (n : ℕ)
      → b.offset + (b.size + nal_reserve n) + b.suffix ≤ capacity b
      → ltb ((2 ^ 64 - 1 - 5) / 3 * 2) n || exceeds_frame b (nal_reserve n) ≡ false
  unfolding exceeds_frame nal_reserve
  within_limits n room = ground (arith, v.small, cap)

  reserve_pos : (n : ℕ) → 0 < nal_reserve n
  unfolding nal_reserve
  reserve_pos n = omega arith

  -- What an append of a fragment leaves: as it is where it asks for no escaping, nothing where it
  -- cannot be escaped, and else its escaped form.
  abbrev pub Appended : ℕ → List ℕ → Bool → Buffer → Type 0
  Appended flags bytes result d =
      ((needs_escape flags ≡ false) × (result ≡ true) × (payload d ≡ payload b ++ bytes))
      ⊎ ((needs_escape flags ≡ true)
          × IsStarved (needs_start flags) (payload b) bytes
          × (result ≡ false)
          × (d ≡ b))
      ⊎ ((needs_escape flags ≡ true)
          × (¬ IsStarved (needs_start flags) (payload b) bytes)
          × (result ≡ true)
          × ((out : List ℕ) × (payload d ≡ payload b ++ out)
              × IsEscaped (needs_start flags) (payload b) bytes out))

  plain_lem :
      (flags : ℕ) (bytes : List ℕ)
      → needs_escape flags ≡ false
      → b.offset + (b.size + nal_reserve (length bytes)) + b.suffix ≤ capacity b
      → (d : Buffer) × (append_nal junk flags b bytes ≡ some (true, d))
        × (payload d ≡ payload b ++ bytes)
  unfolding nal_reserve append_nal
  plain_lem flags [] plain room = (b, rw plain refl, sym (append-nil (payload b)))
  plain_lem flags (x ∷ bytes) plain room =
      let e = append_mem_total junk b v cap (x ∷ bytes) (omega arith) (omega arith) in
      let some_bytes : (length (x ∷ bytes) == 0) ≡ false = ground arith in
      (_, rw (plain, e, some_bytes) refl, (append_mem-Written junk b (x ∷ bytes) _ v e).2)

  refused_lem :
      (flags : ℕ) (bytes : List ℕ)
      → needs_escape flags ≡ true
      → is_refused (needs_start flags) (remember (payload b) []) bytes ≡ true
      → append_nal junk flags b bytes ≡ some (false, b)
  unfolding append_nal
  refused_lem flags bytes escaped starved = rw (escaped, starved) refl

  escaped_lem :
      (flags : ℕ) (bytes : List ℕ)
      → needs_escape flags ≡ true
      → is_refused (needs_start flags) (remember (payload b) []) bytes ≡ false
      → b.offset + (b.size + nal_reserve (length bytes)) + b.suffix ≤ capacity b
      → (d : Buffer) × (append_nal junk flags b bytes ≡ some (true, d))
        × (payload d ≡ payload b ++ nal_bytes (needs_start flags) (remember (payload b) []) bytes)
  unfolding append_nal
  escaped_lem flags bytes escaped allowed room =
      let start = needs_start flags in
      let history = remember (payload b) [] in
      let written =
        write_nal_lem (nal_reserve (length bytes)) (nal_bytes start history bytes)
          (reserve_pos (length bytes)) (length-nal_bytes start history bytes allowed) room in
      (
        written.0,
        rw (escaped, allowed, within_limits (length bytes) room, written.1) refl,
        written.2,
      )

  -- In a buffer with the reserve at hand, a fragment is appended as it is where its flags ask for no
  -- escaping. Where they do, it is refused, and the frame left alone, just when it lacks the bytes to
  -- tell whether it needs an escape, and else appended in a form of which a decoder gets its bytes
  -- back and which holds no start code, a new unit behind a start sequence and its first three bytes.
  pub append_nal_lem :
      (flags : ℕ) (bytes : List ℕ)
      → b.offset + (b.size + nal_reserve (length bytes)) + b.suffix ≤ capacity b
      → (result : Bool) × (d : Buffer) × (append_nal junk flags b bytes ≡ some (result, d))
        × Appended flags bytes result d
  append_nal_lem flags bytes room =
      let start = needs_start flags in
      let meaning = IsStarved-iff start (payload b) bytes in
      elim (Bool-cases (needs_escape flags)) [
        | inl escaped ↦ elim (Bool-cases (is_refused start (remember (payload b) []) bytes)) [
          | inl starved ↦ (
            false,
            b,
            refused_lem flags bytes escaped starved,
            inr (inl (escaped, meaning.0 starved, refl, refl)),
          )
          | inr allowed ↦
              let (d, e, same) = escaped_lem flags bytes escaped allowed room in
              (
                true,
                d,
                e,
                inr (
                    inr (
                      escaped,
                      λ s. let t = meaning.1 s in cc,
                      refl,
                      (_, same, nal_bytes-IsEscaped start (payload b) bytes),
                    )),
              )
        ]
        | inr plain ↦
            let (d, e, same) = plain_lem flags bytes plain room in
            (true, d, e, inl (plain, refl, same))
      ]
