-- ===== src/Common/Slices.antt =====
-- Parts of a list by position, and the list after an overwrite: the cells of a buffer.
use Prim.Native.Nat.{ℕ, zero, suc, ◌+◌, ◌-◌, ◌≤◌}
use mathlib.Core.Path.{◌≡◌, refl, ap, ◌∙◌, sym}
use mathlib.Core.List.{List, [], ◌∷◌, ◌++◌}
use native.Mathlib.Omega.{arith}
use ihslib.Common.Lists.{length, take, drop, length-append, length-drop}

module _ {ℓ} {A : Type ℓ} where
  -- `n` elements from position `i` on.
  abbrev pub slice : ℕ → ℕ → List A → List A
  slice i n xs = take n (drop i xs)

  -- `ys` written over the elements from position `i` on.
  unfoldable pub splice : List A → ℕ → List A → List A
  splice xs i ys = take i xs ++ (ys ++ drop (i + length ys) xs)

  pub length-take_le : (n : ℕ) (xs : List A) → n ≤ length xs → length (take n xs) ≡ n
  length-take_le zero xs h = refl
  length-take_le (suc n) [] h = absurd (omega arith)
  length-take_le (suc n) (x ∷ xs) h = ap suc (length-take_le n xs (omega arith))

  -- `n` is a variable with an equation: the lengths that meet here are sums.
  pub take-append : (n : ℕ) (xs ys : List A) → length xs ≡ n → take n (xs ++ ys) ≡ xs
  take-append zero [] ys h = refl
  take-append zero (x ∷ xs) ys h = absurd (omega arith)
  take-append (suc n) [] ys h = absurd (omega arith)
  take-append (suc n) (x ∷ xs) ys h = ap (λ l. x ∷ l) (take-append n xs ys (omega arith))

  pub drop-append : (n : ℕ) (xs ys : List A) → length xs ≡ n → drop n (xs ++ ys) ≡ ys
  drop-append zero [] ys h = refl
  drop-append zero (x ∷ xs) ys h = absurd (omega arith)
  drop-append (suc n) [] ys h = absurd (omega arith)
  drop-append (suc n) (x ∷ xs) ys h = drop-append n xs ys (omega arith)

  pub take-append_more :
      (m n : ℕ) (xs ys : List A) → m ≡ length xs + n → take m (xs ++ ys) ≡ xs ++ take n ys
  take-append_more m n [] ys h = ap (λ k. take k ys) (omega arith)
  take-append_more zero n (x ∷ xs) ys h = absurd (omega arith)
  take-append_more (suc m) n (x ∷ xs) ys h =
      ap (λ l. x ∷ l) (take-append_more m n xs ys (omega arith))

  pub drop-append_more :
      (m n : ℕ) (xs ys : List A) → m ≡ length xs + n → drop m (xs ++ ys) ≡ drop n ys
  drop-append_more m n [] ys h = ap (λ k. drop k ys) (omega arith)
  drop-append_more zero n (x ∷ xs) ys h = absurd (omega arith)
  drop-append_more (suc m) n (x ∷ xs) ys h = drop-append_more m n xs ys (omega arith)

  pub take_all : (n : ℕ) (xs : List A) → length xs ≤ n → take n xs ≡ xs
  take_all zero [] h = refl
  take_all zero (x ∷ xs) h = absurd (omega arith)
  take_all (suc n) [] h = refl
  take_all (suc n) (x ∷ xs) h = ap (λ l. x ∷ l) (take_all n xs (omega arith))

  -- A part that lies before the end is not changed by an extension.
  pub slice-append_left :
      (i n : ℕ) (xs ys : List A) → i + n ≤ length xs → slice i n (xs ++ ys) ≡ slice i n xs
  slice-append_left zero zero xs ys h = refl
  slice-append_left zero (suc n) [] ys h = absurd (omega arith)
  slice-append_left zero (suc n) (x ∷ xs) ys h =
      ap (λ l. x ∷ l) (slice-append_left zero n xs ys (omega arith))
  slice-append_left (suc i) n [] ys h = absurd (omega arith)
  slice-append_left (suc i) n (x ∷ xs) ys h = slice-append_left i n xs ys (omega arith)

  pub slice-take : (i n j : ℕ) (xs : List A) → i + n ≤ j → slice i n (take j xs) ≡ slice i n xs
  slice-take zero zero j xs h = refl
  slice-take zero (suc n) zero xs h = absurd (omega arith)
  slice-take zero (suc n) (suc j) [] h = refl
  slice-take zero (suc n) (suc j) (x ∷ xs) h =
      ap (λ l. x ∷ l) (slice-take zero n j xs (omega arith))
  slice-take (suc i) n zero xs h = absurd (omega arith)
  slice-take (suc i) n (suc j) [] h = refl
  slice-take (suc i) n (suc j) (x ∷ xs) h = slice-take i n j xs (omega arith)

  pub take_zero : (k : ℕ) (xs : List A) → k ≡ 0 → take k xs ≡ []
  take_zero zero xs h = refl
  take_zero (suc k) xs h = absurd (omega arith)

  take-nil : (k : ℕ) → take {A = A} k [] ≡ []
  take-nil zero = refl
  take-nil (suc k) = refl

  drop-nil : (k : ℕ) → drop {A = A} k [] ≡ []
  drop-nil zero = refl
  drop-nil (suc k) = refl

  pub drop_add : (k i m : ℕ) (xs : List A) → k ≡ i + m → drop k xs ≡ drop m (drop i xs)
  drop_add k zero m xs h = ap (λ j. drop j xs) (omega arith)
  drop_add k (suc i) m [] h = drop-nil k ∙ sym (drop-nil m)
  drop_add zero (suc i) m (x ∷ xs) h = absurd (omega arith)
  drop_add (suc k) (suc i) m (x ∷ xs) h = drop_add k i m xs (omega arith)

  pub take_add : (k m n : ℕ) (xs : List A) → k ≡ m + n → take k xs ≡ take m xs ++ take n (drop m xs)
  take_add k zero n xs h = ap (λ j. take j xs) (omega arith)
  take_add k (suc m) n [] h = take-nil k ∙ sym (take-nil n)
  take_add zero (suc m) n (x ∷ xs) h = absurd (omega arith)
  take_add (suc k) (suc m) n (x ∷ xs) h = ap (λ l. x ∷ l) (take_add k m n xs (omega arith))

  -- Two neighbouring parts are one part.
  pub slice_add :
      (i m n : ℕ) (xs : List A) → slice i (m + n) xs ≡ slice i m xs ++ slice (i + m) n xs
  slice_add i m n xs =
      take_add (m + n) m n (drop i xs) refl
      ∙ ap (λ ys. slice i m xs ++ take n ys) (sym (drop_add (i + m) i m xs refl))

  pub length-splice :
      (xs ys : List A) (i : ℕ) → i + length ys ≤ length xs → length (splice xs i ys) ≡ length xs
  unfolding splice
  length-splice xs ys i h = omega (
    arith,
    length-append (take i xs) (ys ++ drop (i + length ys) xs),
    length-append ys (drop (i + length ys) xs),
    length-take_le i xs (omega arith),
    length-drop (i + length ys) xs,
  )

  -- An overwrite leaves what lies before it.
  pub slice-splice_before :
      (xs ys : List A) (i n j : ℕ)
      → i + n ≤ j
      → j ≤ length xs
      → slice i n (splice xs j ys) ≡ slice i n xs
  unfolding splice
  slice-splice_before xs ys i n j h k =
      slice-append_left i n (take j xs) _ (rw (length-take_le j xs k) h) ∙ slice-take i n j xs h

  -- It writes its own part.
  pub slice-splice_self :
      (xs ys : List A) (j : ℕ) → j ≤ length xs → slice j (length ys) (splice xs j ys) ≡ ys
  unfolding splice
  slice-splice_self xs ys j k =
      rw (drop-append j (take j xs) (ys ++ drop (j + length ys) xs) (length-take_le j xs k))
        (take-append (length ys) ys (drop (j + length ys) xs) refl)

  -- It leaves what lies behind it.
  pub slice-splice_after :
      (xs ys : List A) (i n j : ℕ)
      → j + length ys ≤ i
      → j + length ys ≤ length xs
      → slice i n (splice xs j ys) ≡ slice i n xs
  unfolding splice
  slice-splice_after xs ys i n j h k = ap (take n) (
      drop-append_more i (i - j) (take j xs) (ys ++ drop (j + length ys) xs)
        (omega (arith, length-take_le j xs (omega arith)))
      ∙ drop-append_more (i - j) (i - j - length ys) ys (drop (j + length ys) xs) (omega arith)
      ∙ sym (drop_add i (j + length ys) (i - j - length ys) xs (omega arith)))
