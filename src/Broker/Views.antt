-- ===== src/Broker/Views.antt =====
-- The operations of pkg/capimq/message_broker.go that count, list and purge messages.
use capillaries.Prelude.{
  ℕ, zero, suc, ◌+◌, Bool, ◌||◌, Option, none, some, List, [], ◌∷◌, length, filter, count_if,
  get_elem?, remove_at, if◌then◌else◌,
}
use capillaries.Prelude.Int.{ℤ, pos, negsuc, ◌+ℤ◌, ◌-ℤ◌}
use capillaries.Prelude.Text.{Text, has_prefix, text_eq}
use capillaries.Prelude.Assoc.{Assoc, delete, values}
use capillaries.Broker.Message.{
  Message, Broker, HeapType, q_heap, wip_heap, unknown_heap, QueueRead, read_tail, sort_q,
}

-- `prefix == "" || strings.HasPrefix(msg.CapimqWaitRetryGroup, prefix)`
unfoldable pub in_groups : Text → Message → Bool
unfolding has_prefix text_eq
in_groups prefix m = text_eq prefix [] || has_prefix m.group prefix

unfoldable pub count : HeapType → Text → Broker → ℕ
count q_heap prefix b = count_if (in_groups prefix) b.q
count wip_heap prefix b = count_if (in_groups prefix) (values b.wip)
count unknown_heap prefix b = 0

-- The loop over the queue: `i` is advanced after a removal too. `n` bounds the rounds; each round
-- advances `i`, so the length of the queue is enough.
unfoldable pub delete_loop : ℕ → Text → ℕ → List Message → ℕ → List Message × ℕ
unfolding in_groups
delete_loop zero prefix i q n = (q, n)
delete_loop (suc fuel) prefix i q n = elim (get_elem? q i) [
  | none ↦ (q, n)
  | some m ↦
      delete_loop fuel prefix (suc i) (if in_groups prefix m then remove_at i q else q)
        (if in_groups prefix m then n + 1 else n)
]

unfoldable pub ids_in_groups : Text → Assoc Message → List Text
unfolding in_groups
ids_in_groups prefix [] = []
ids_in_groups prefix ((id, m) ∷ wip) =
    let rest = ids_in_groups prefix wip in if in_groups prefix m then id ∷ rest else rest

unfoldable pub delete_ids : List Text → Assoc Message → Assoc Message
unfolding delete
delete_ids [] wip = wip
delete_ids (id ∷ ids) wip = delete_ids ids (delete id wip)

unfoldable pub delete_queued : Text → Broker → Broker × ℕ
unfolding delete_loop
delete_queued prefix b =
    let (q, n) = delete_loop (length b.q) prefix 0 b.q 0 in (record b { q = q }, n)

unfoldable pub delete_claimed : Text → Broker → Broker × ℕ
unfolding ids_in_groups delete_ids
delete_claimed prefix b =
    let ids = ids_in_groups prefix b.wip in (record b { wip = delete_ids ids b.wip }, length ids)

unfoldable pub purge : HeapType → Text → Broker → Broker × ℕ
unfolding delete_queued delete_claimed
purge q_heap prefix b = delete_queued prefix b
purge wip_heap prefix b = delete_claimed prefix b
purge unknown_heap prefix b = (b, 0)

-- An element by an int index; outside the list the loop breaks.
abbrev at_index : List Message → ℤ → Option Message
at_index l (pos i) = get_elem? l i
at_index l (negsuc i) = none

-- `for range count`: `n` rounds, from `i` by steps of `inc`.
unfoldable pub page_loop : ℕ → List Message → ℤ → ℤ → List Message
page_loop zero l i inc = []
page_loop (suc n) l i inc = elim (at_index l i) [
  | none ↦ []
  | some m ↦ m ∷ page_loop n l (i +ℤ inc) inc
]

-- `range count` makes no round when `count` is negative.
abbrev rounds : ℤ → ℕ
rounds (pos n) = n
rounds (negsuc n) = 0

unfoldable pub page : QueueRead → ℤ → ℤ → List Message → List Message
unfolding page_loop
page read_tail from count l =
    page_loop (rounds count) l (pos (length l) -ℤ pos 1 -ℤ from) (negsuc 0)
page _ from count l = page_loop (rounds count) l from (pos 1)

unfoldable pub head_tail : HeapType → QueueRead → ℤ → ℤ → Broker → List Message
unfolding page sort_q
head_tail q_heap read from count b = page read from count b.q
head_tail wip_heap read from count b = page read from count (sort_q (values b.wip))
head_tail unknown_heap read from count b = []

-- An empty prefix is not accepted.
unfoldable pub filter_groups : HeapType → Text → Broker → List Message
unfolding has_prefix text_eq
filter_groups q_heap prefix b =
    if text_eq prefix [] then [] else filter (λ m. has_prefix m.group prefix) b.q
filter_groups wip_heap prefix b =
    if text_eq prefix [] then [] else filter (λ m. has_prefix m.group prefix) (values b.wip)
filter_groups unknown_heap prefix b = []
