-- ===== src/Queue.antt =====
-- The singly linked queues of kernel/queue.c. `PCB_queue`, `messages_queue` and
-- `free_memory_queue` are the same pair of pointers, and the `next` fields of the queued
-- structures are a map `Links`, which each operation takes and returns. A loop along the links
-- runs on fuel.
pub mod Chain
pub mod Fifo
pub mod Twice
use door_rtos.Base.{
  ℕ, zero, suc, Bool, true, false, ◌==◌, if◌then◌else◌, Ptr, null, Links, Outcome, ok, fault,
  out_of_fuel, write, ◌>>=◌, ◌>>◌, Option, none, some,
}

pub record Queue : Type 0 where
  pub head : Ptr
  pub tail : Ptr

abbrev pub queue : Ptr → Ptr → Queue
queue h t = record { head = h; tail = t }

unfoldable pub init_queue : Queue
init_queue = queue null null

unfoldable pub is_empty : Queue → Bool
is_empty q = q.head == null

unfoldable pub enqueue : Queue → Ptr → Links → Outcome (Queue × Links)
unfolding is_empty
enqueue q e next =
    if e == null
    then fault
    else if is_empty q
    then ok (queue e e, write next e null)
    else ok (queue e q.tail, write next e q.head)

-- `while (last->next != temp) last = last->next;`
unfoldable pub seek : ℕ → (last temp : Ptr) → Links → Outcome Ptr
seek zero last temp next = out_of_fuel
seek (suc fuel) last temp next =
    let rest = seek fuel (next last) temp next in
    if last == null then fault else if next last == temp then ok last else rest

-- Where there is more than one element: cut the list before the tail.
unfoldable pub cut_tail : ℕ → Queue → Links → Outcome (Ptr × Queue × Links)
cut_tail fuel q next = do
  last ← seek fuel q.head q.tail next
  ok (q.tail, queue q.head last, write next last null)

unfoldable pub dequeue_fifo : ℕ → Queue → Links → Outcome (Ptr × Queue × Links)
unfolding is_empty cut_tail
dequeue_fifo fuel q next =
    if is_empty q
    then ok (null, q, next)
    else if next q.head == null
    then ok (q.tail, queue null null, next)
    else cut_tail fuel q next

-- The tail is left as it is, also when the queue becomes empty.
unfoldable pub dequeue_lifo : Queue → Links → Ptr × Queue
unfolding is_empty
dequeue_lifo q next = if is_empty q then (null, q) else (q.head, queue (next q.head) q.tail)

-- The element found behind `temp`, or NULL when the links end.
unfoldable pub search_from : ℕ → (temp e : Ptr) → Links → Outcome (Option Ptr)
search_from zero temp e next = out_of_fuel
search_from (suc fuel) temp e next =
    let rest = search_from fuel (next temp) e next in
    if temp == null
    then fault
    else if next temp == null
    then ok none
    else if next temp == e
    then ok (some temp)
    else rest

unfoldable pub search_queue : ℕ → Queue → Ptr → Links → Outcome Bool
search_queue fuel q e next =
    if q.head == e
    then ok true
    else if q.tail == e
    then ok true
    else (search_from fuel q.head e next >>= λ r. ok (elim r [ none ↦ false | some _ ↦ true ]))

unfoldable pub search_dequeue : ℕ → Queue → Ptr → Links → Outcome (Ptr × Queue × Links)
search_dequeue fuel q e next =
    if q.head == e
    then dequeue_fifo fuel q next
    else if q.tail == e
    then (let (p, q') = dequeue_lifo q next in ok (p, q', next))
    else (search_from fuel q.head e next >>= λ r. elim r [
      | none ↦ ok (null, q, next)
      | some temp ↦ ok (next temp, q, write next temp (next (next temp)))
    ])
