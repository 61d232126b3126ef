-- ===== src/Outgoing/Cells.antt =====
-- src/session/outgoing.c: the slots of IDs in a ring whose size divides 2 ^ 16.
use native.Mathlib.Nat.{
  mod-eq_of_lt, mod-eq-sub-mod, mod-lt, mod-add-mod, div-add-mod, mul_assoc, mul-add-mod_self_left,
}
use ihslib.Common.{
  ℕ, zero, suc, ◌+◌, ◌-◌, ◌*◌, ◌/◌, ◌%◌, ◌^◌, ◌≤◌, ◌<◌, ◌≡◌, ◌⊎◌, inl, inr, ap, ◌∙◌, sym, arith,
  sub16, ltb, Bool-cases,
}
use ihslib.Buffer.Defs.{double_to}

-- A number that can be doubled up to 2 ^ 16.
pub data Divides : ℕ → Type 0 where
  whole : (n : ℕ) → n ≡ 2 ^ 16 → Divides n
  half : (n : ℕ) → Divides (n * 2) → Divides n

pub Divides-parts : (n : ℕ) → Divides n → (q : ℕ) × (n * q ≡ 2 ^ 16)
Divides-parts m (whole n e) = (1, omega (arith, e))
Divides-parts m (half n d) =
    let (q, e) = Divides-parts (n * 2) d in (2 * q, sym (mul_assoc n 2 q) ∙ e)

Divides-double : (n : ℕ) → Divides n → n < 2 ^ 16 → Divides (n * 2)
Divides-double m (whole n e) h = absurd (omega arith)
Divides-double m (half n d) h = d

pub double_to-Divides :
    (fuel n wanted : ℕ) → Divides n → wanted ≤ 32768 → Divides (double_to fuel n wanted)
unfolding double_to
double_to-Divides zero n wanted d h = d
double_to-Divides (suc fuel) n wanted d h = elim (Bool-cases (ltb n wanted)) [
  | inl more ↦
      rw more
        (double_to-Divides fuel (n * 2) wanted (Divides-double n d (ground (arith, more, h))) h)
  | inr enough ↦ rw enough d
]

-- The remainder by a part of 2 ^ 16 does not see the wrap.
pub wrapped_mod : (c x : ℕ) → Divides c → (x % 2 ^ 16) % c ≡ x % c
wrapped_mod c x d =
    let (q, e) = Divides-parts c d in
    let k = x / 2 ^ 16 in
    let r = x % 2 ^ 16 in
    let split : x ≡ c * (q * k) + r =
      sym (div-add-mod x (2 ^ 16))
      ∙ ap (λ m. m * k + r) (sym e)
      ∙ ap (λ m. m + r) (mul_assoc c q k) in
    sym (mul-add-mod_self_left c (q * k) r) ∙ ap (λ m. m % c) (sym split)

turn_lem :
    (c h d : ℕ) → h < c → d < c → ((h + d) % c ≡ h + d) ⊎ ((c ≤ h + d) × ((h + d) % c ≡ h + d - c))
turn_lem c h d k l = elim (Bool-cases (ltb (h + d) c)) [
  | inl small ↦ inl (mod-eq_of_lt (ground (arith, small)))
  | inr large ↦
      let over : c ≤ h + d = ground (arith, large) in
      inr (over, mod-eq-sub-mod over ∙ mod-eq_of_lt (omega (arith, k, l, over)))
]

offset_unique : (c h a b : ℕ) → h < c → a < c → b < c → (h + a) % c ≡ (h + b) % c → a ≡ b
offset_unique c h a b k la lb e = elim (turn_lem c h a k la) [
  | inl x ↦ elim (turn_lem c h b k lb) [
    | inl y ↦ omega (arith, x, y, e)
    | inr (o, y) ↦ omega (arith, x, y, e, o)
  ]
  | inr (p, x) ↦ elim (turn_lem c h b k lb) [
    | inl y ↦ omega (arith, x, y, e, p)
    | inr (o, y) ↦ omega (arith, x, y, e, o, p)
  ]
]

place_lem :
    (c head j : ℕ) → Divides c → head < 2 ^ 16 → j < 2 ^ 16 → j % c ≡ (head % c + sub16 j head) % c
place_lem c head j d hh hj =
    let back : j ≡ (head + sub16 j head) % 2 ^ 16 = omega arith in
    ap (λ m. m % c) back
    ∙ wrapped_mod c (head + sub16 j head) d
    ∙ sym (mod-add-mod head c (sub16 j head))

-- IDs less than a ring apart from the head have slots of their own.
pub slot_unique :
    (c head j k : ℕ)
    → Divides c
    → 0 < c
    → head < 2 ^ 16
    → j < 2 ^ 16
    → k < 2 ^ 16
    → sub16 j head < c
    → sub16 k head < c
    → j % c ≡ k % c
    → j ≡ k
slot_unique c head j k dv pos hh hj hk dj dk e =
    let h = head % c in
    let a = sub16 j head in
    let b = sub16 k head in
    let at_j : j % c ≡ (h + a) % c = place_lem c head j dv hh hj in
    let at_k : k % c ≡ (h + b) % c = place_lem c head k dv hh hk in
    let below : h < c = mod-lt head pos in
    let same : a ≡ b = offset_unique c h a b below dj dk (sym at_j ∙ e ∙ at_k) in
    omega (arith, same)
