-- ===== src/ConnectionId.antt =====
-- src/session/connection_id.c: the process-wide connection IDs. The counter is `nextConnectionId`,
-- 0 before the first call. The entropy is the list of the random words that the provider gives; a
-- call is the exchange that takes effect.
use ihslib.Common.{
  ℕ, zero, suc, ◌+◌, ◌-◌, ◌%◌, ◌^◌, ◌≤◌, ◌<◌, ◌≡◌, ap₂, ◌∙◌, Option, none, some, List, [], ◌∷◌,
  ◌==◌, ==_iff, if◌then◌else◌, arith,
}

-- The loop that draws a seed other than 0: none where the words run out.
unfoldable pub seed_id : List ℕ → Option ℕ
seed_id [] = none
seed_id (word ∷ words) =
    let rest = seed_id words in
    if word % 2 ^ 31 % 255 == 0 then rest else some (word % 2 ^ 31 % 255)

-- The counter behind an ID.
unfoldable pub following_id : ℕ → ℕ
following_id id = if id == 255 then 1 else id + 1

-- `IHS_SessionNextConnectionId`: the ID, and the counter it leaves.
unfoldable pub next_connection_id : ℕ → List ℕ → Option (ℕ × ℕ)
unfolding seed_id following_id
next_connection_id current words =
    if current == 0
    then elim (seed_id words) [ none ↦ none | some id ↦ some (id, following_id id) ]
    else some (current, following_id current)

-- The counter after `calls` calls on a started counter.
pub counter_after : ℕ → ℕ → ℕ
unfolding following_id
counter_after current zero = current
counter_after current (suc calls) = counter_after (following_id current) calls

counter_after_lem :
    (current calls : ℕ)
    → 0 < current
    → current ≤ 255
    → counter_after current calls ≡ (current - 1 + calls) % 255 + 1
unfolding counter_after
counter_after_lem current zero lt le = omega arith
counter_after_lem current (suc calls) lt le =
    ground
      (arith, ==_iff current 255, counter_after_lem 1 calls, counter_after_lem (current + 1) calls)

next_started :
    (id : ℕ) (words : List ℕ) → 0 < id → next_connection_id id words ≡ some (id, following_id id)
unfolding next_connection_id
next_started id words lt = ground (arith, ==_iff id 0)

following_lem :
    (id current calls : ℕ)
    → 0 < current
    → id ≡ (current - 1 + calls) % 255 + 1
    → following_id id ≡ (current + calls) % 255 + 1
unfolding following_id
following_lem id current calls lt e = ground (arith, ==_iff id 255)

-- On a started counter every call gives an ID without entropy, and the IDs run in order from 1 to 255
-- and start again at 1, in any number of calls.
pub next_connection_id-counter_after :
    (current calls : ℕ) (words : List ℕ)
    → 0 < current
    → current ≤ 255
    → next_connection_id (counter_after current calls) words
      ≡ some ((current - 1 + calls) % 255 + 1, (current + calls) % 255 + 1)
next_connection_id-counter_after current calls words lt le =
    let id = counter_after current calls in
    let e = counter_after_lem current calls lt le in
    next_started id words (omega (e, arith))
    ∙ ap₂ (λ a b. some (a, b)) e (following_lem id current calls lt e)
