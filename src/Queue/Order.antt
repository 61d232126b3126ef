-- ===== src/Queue/Order.antt =====
-- src/ihs_queue.c: the order of the items.
use ihslib.Common.{
  ◌≡◌, refl, Bool, true, false, not, Bool-cases, inl, inr, some, List, [], ◌∷◌, ◌++◌, select, All,
  length,
}
use ihslib.Queue.Defs.{queue_poll_by, queue_poll_each, queue_is_empty, behind}

module _ {ℓ} {A : Type ℓ} where
  -- A sweep destroys the items that the predicate holds of and keeps the others, each in their
  -- order, and counts every item.
  pub queue_poll_each_lem :
      (q : List A) (p : A → Bool)
      → queue_poll_each q p
        ≡ record { queue = select (λ x. not (p x)) q; destroyed = select p q; iterated = length q }
  unfolding queue_poll_each
  queue_poll_each_lem [] p = refl
  queue_poll_each_lem (x ∷ xs) p = elim (Bool-cases (p x)) [
    | inl e ↦ rw (e, queue_poll_each_lem xs p) refl
    | inr e ↦ rw (e, queue_poll_each_lem xs p) refl
  ]

  -- The first item that the predicate holds of is taken, wherever it stands, and the others keep
  -- their order; its link is NULL, as an append of it needs, only where it was the last.
  pub queue_poll_by-append :
      (before after : List A) (x : A) (p : A → Bool)
      → All (λ y. p y ≡ false) before
      → p x ≡ true
      → queue_poll_by (before ++ (x ∷ after)) p
        ≡ some (record { value = x; next_is_null = queue_is_empty after }, before ++ after)
  unfolding queue_poll_by behind
  queue_poll_by-append [] after x p none_before e = rw e refl
  queue_poll_by-append (y ∷ ys) after x p none_before e =
      rw (none_before.0, queue_poll_by-append ys after x p none_before.1 e) refl
