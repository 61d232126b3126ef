-- ===== src/Tests/Queue.antt =====
-- src/ihs_queue.c: a queue of numbers.
use ihslib.Common.{ℕ, ◌≡◌, refl, some, List, [], ◌∷◌, ◌++◌, ltb}
use ihslib.Queue.Defs.{queue_poll_by, queue_is_empty}
use ihslib.Queue.Order.{queue_poll_by-append}

abbrev waiting : List ℕ
waiting = 5 ∷ 1 ∷ 7 ∷ []

queue_poll_by-append_example :
    queue_poll_by ((5 ∷ []) ++ (1 ∷ 7 ∷ [])) (λ x. ltb x 3)
    ≡ some
        (record { value = 1; next_is_null = queue_is_empty {A = ℕ} (7 ∷ []) }, (5 ∷ []) ++ (7 ∷ []))
queue_poll_by-append_example =
    queue_poll_by-append (5 ∷ []) (7 ∷ []) 1 (λ x. ltb x 3) (refl, tt) refl
