-- ===== src/Queue/Defs.antt =====
-- src/ihs_queue.c. A queue is the list of its items' values from `head` on. An item outside the
-- queue is its value and whether its `next` link is NULL, which IHS_QueueAppend asserts. A predicate
-- and a consumer read the item only.
use ihslib.Common.{ℕ, suc, Bool, true, false, Option, none, some, List, [], ◌∷◌, if◌then◌else◌}

pub record Item {ℓ} (A : Type ℓ) : Type ℓ where
  pub value : A
  pub next_is_null : Bool

-- What IHS_QueuePollEach leaves: the queue, the destroyed items in order and the count of rounds.
pub record Swept {ℓ} (A : Type ℓ) : Type ℓ where
  pub queue : List A
  pub destroyed : List A
  pub iterated : ℕ

module _ {ℓ} {A : Type ℓ} where
  -- `IHS_QueueCreate`; `allocated` is whether memory is given.
  unfoldable pub create_queue : Bool → Option (List A)
  create_queue allocated = if allocated then some [] else none

  -- `IHS_QueueItemObtain`, whose fields the caller sets to `a`.
  unfoldable pub item_obtain : Bool → A → Option (Item A)
  item_obtain allocated a =
      if allocated then some (record { value = a; next_is_null = true }) else none

  -- The walk of `IHS_QueueAppend` to the last node.
  unfoldable pub link_last : List A → A → List A
  link_last [] a = a ∷ []
  link_last (x ∷ xs) a = x ∷ link_last xs a

  -- `IHS_QueueAppend`: none where its assertion fails.
  unfoldable pub queue_append : List A → Item A → Option (List A)
  unfolding link_last
  queue_append q item = if item.next_is_null then some (link_last q item.value) else none

  -- `IHS_QueuePoll`, which clears the item's link.
  unfoldable pub queue_poll : List A → Option (Item A × List A)
  queue_poll [] = none
  queue_poll (x ∷ xs) = some (record { value = x; next_is_null = true }, xs)

  -- `IHS_QueueIsEmpty`.
  unfoldable pub queue_is_empty : List A → Bool
  queue_is_empty [] = true
  queue_is_empty (x ∷ xs) = false

  unfoldable pub behind : A → Option (Item A × List A) → Option (Item A × List A)
  behind x none = none
  behind x (some r) = some (r.0, x ∷ r.1)

  -- `IHS_QueuePollBy`, which leaves the item's link as it was: NULL at the end of the queue only.
  unfoldable pub queue_poll_by : List A → (A → Bool) → Option (Item A × List A)
  unfolding behind queue_is_empty
  queue_poll_by [] predicate = none
  queue_poll_by (x ∷ xs) predicate =
      let rest = queue_poll_by xs predicate in
      if predicate x
      then some (record { value = x; next_is_null = queue_is_empty xs }, xs)
      else behind x rest

  -- `IHS_QueuePollEach`.
  unfoldable pub queue_poll_each : List A → (A → Bool) → Swept A
  queue_poll_each [] predicate = record { queue = []; destroyed = []; iterated = 0 }
  queue_poll_each (x ∷ xs) predicate =
      let rest = queue_poll_each xs predicate in
      if predicate x
      then record {
        queue = rest.queue;
        destroyed = x ∷ rest.destroyed;
        iterated = suc rest.iterated;
      }
      else record {
        queue = x ∷ rest.queue;
        destroyed = rest.destroyed;
        iterated = suc rest.iterated;
      }

  -- `IHS_QueueDestroy`: the items that its consumer sees, in order.
  unfoldable pub queue_destroy : List A → List A
  queue_destroy [] = []
  queue_destroy (x ∷ xs) = x ∷ queue_destroy xs
