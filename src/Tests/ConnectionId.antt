-- ===== src/Tests/ConnectionId.antt =====
-- src/session/connection_id.c: a counter that has reached its last ID.
use ihslib.Common.{◌+◌, ◌-◌, ◌%◌, ◌≡◌, refl, some, [], ◌∷◌, arith}
use ihslib.ConnectionId.{next_connection_id, counter_after, next_connection_id-counter_after}

next_connection_id-counter_after_example :
    next_connection_id (counter_after 254 3) []
    ≡ some ((254 - 1 + 3) % 255 + 1, (254 + 3) % 255 + 1)
next_connection_id-counter_after_example =
    next_connection_id-counter_after 254 3 [] (omega arith) (omega arith)

-- The first call draws words until one leaves a remainder.
first_id : next_connection_id 0 (255 ∷ 510 ∷ 7 ∷ []) ≡ some (7, 8)
unfolding next_connection_id
first_id = refl
