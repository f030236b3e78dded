-- ===== src/MetaQueue.antt =====
-- The queues by priority of kernel/queue.c: one PCB queue for each priority, and the smallest
-- priority whose queue holds a process. `subqueues` is a map from all indices: `NUM_PRIO + 1` of
-- them are the array, the others stand for the memory behind it, which the loops below read one
-- element of before they compare the index.
pub mod Invariant
pub mod Remove
pub mod Dequeue
pub mod Enqueue
use door_rtos.Base.{
  ℕ, zero, suc, ◌+◌, Bool, true, false, not, ◌&&◌, ◌==◌, ltb, if◌then◌else◌, Ptr, null, Links,
  Outcome, ok, fault, out_of_fuel, write, ◌>>=◌, ◌>>◌,
}
use door_rtos.Queue.{Queue, queue, init_queue, is_empty, enqueue, dequeue_fifo}
use door_rtos.Task.{Pcb, Pcbs, num_prio, rtx_success, rtx_error}

pub record MetaQueue : Type 0 where
  pub highest_prio : ℕ
  pub subqueues : ℕ → Queue

-- The loop of `init_METAPCB_queue` from index `i`, with so many rounds left.
init_subqueues : (rounds i : ℕ) → (ℕ → Queue) → ℕ → Queue
init_subqueues zero i qs = qs
init_subqueues (suc rounds) i qs = init_subqueues rounds (suc i) (write qs i init_queue)

unfoldable pub init_meta : MetaQueue → MetaQueue
unfolding init_subqueues
init_meta q = record {
  highest_prio = num_prio + 1;
  subqueues = init_subqueues (num_prio + 1) 0 q.subqueues;
}

unfoldable pub is_meta_empty : MetaQueue → Bool
is_meta_empty q =
    if ltb num_prio q.highest_prio then true else is_empty (q.subqueues q.highest_prio)

-- `while (isEmpty (q->subqueues + q->highest_prio) && q->highest_prio < NUM_PRIO + 1)`
unfoldable pub raise_highest : ℕ → ℕ → (ℕ → Queue) → Outcome ℕ
raise_highest zero p qs = out_of_fuel
raise_highest (suc fuel) p qs =
    let rest = raise_highest fuel (suc p) qs in
    if is_empty (qs p) && ltb p (num_prio + 1) then rest else ok p

-- Enough for every start, since the index only grows to `NUM_PRIO + 1`.
abbrev pub raise_fuel : ℕ
raise_fuel = 7

unfoldable pub dequeue_by_priority : ℕ → MetaQueue → Links → Outcome (Ptr × MetaQueue × Links)
dequeue_by_priority fuel mq next =
    if ltb mq.highest_prio (num_prio + 1)
    then (do
      (pcb, q, next') ← dequeue_fifo fuel (mq.subqueues mq.highest_prio) next
      let qs = write mq.subqueues mq.highest_prio q
      p ← raise_highest raise_fuel mq.highest_prio qs
      ok (pcb, record { highest_prio = p; subqueues = qs }, next'))
    else ok (null, mq, next)

unfoldable pub enqueue_by_priority : Pcbs → MetaQueue → Ptr → Links → Outcome (MetaQueue × Links)
enqueue_by_priority pcbs mq pcb next =
    let prio : ℕ = (pcbs pcb).priority in
    enqueue (mq.subqueues prio) pcb next >>= λ (q, next'). ok (
      record {
        highest_prio = if ltb prio mq.highest_prio then prio else mq.highest_prio;
        subqueues = write mq.subqueues prio q;
      },
      next',
    )

-- The loop of `remove_element`: it ends at `pcb` or at NULL, with the element before it.
unfoldable pub find_element : ℕ → (previous current pcb : Ptr) → Links → Outcome (Ptr × Ptr)
find_element zero previous current pcb next = out_of_fuel
find_element (suc fuel) previous current pcb next =
    let rest = find_element fuel current (next current) pcb next in
    if current == pcb
    then ok (previous, current)
    else if current == null
    then ok (previous, current)
    else rest

-- The branches of `remove_element` for a queue of more than one: head, tail, elsewhere.
unfoldable pub unlink : Queue → (previous current : Ptr) → Links → Queue × Links
unlink q previous current next =
    if current == q.head
    then (queue (next current) q.tail, next)
    else if current == q.tail
    then (queue q.head previous, next)
    else (q, write next previous (next current))

-- What `remove_element` does once its loop has ended, with `q` for `mq->subqueues + i`.
unfoldable pub remove_found :
    MetaQueue → (i : ℕ) → (previous current : Ptr) → Links → Outcome (ℕ × MetaQueue × Links)
remove_found mq i previous current next =
    let q = mq.subqueues i in
    let qs = write mq.subqueues i (queue null null) in
    if current == null
    then ok (rtx_error, mq, next)
    else if (current == q.head) && (current == q.tail)
    then (raise_highest raise_fuel mq.highest_prio qs >>= λ p.
        ok (rtx_success, record { highest_prio = p; subqueues = qs }, next))
    else (let (q', next') = unlink q previous current next in
        ok (rtx_success, record mq { subqueues = write mq.subqueues i q' }, next'))

-- The loop leaves `previous` alone, here NULL, only at the head, where it is not read.
unfoldable pub remove_element :
    ℕ → MetaQueue → (i : ℕ) → Ptr → Links → Outcome (ℕ × MetaQueue × Links)
unfolding remove_found
remove_element fuel mq i pcb next =
    if pcb == null
    then ok (rtx_error, mq, next)
    else (find_element fuel null (mq.subqueues i).head pcb next >>= λ (previous, current).
        remove_found mq i previous current next)

unfoldable pub remove_element_by_priority :
    ℕ → Pcbs → Ptr → MetaQueue → Links → Outcome (ℕ × MetaQueue × Links)
remove_element_by_priority fuel pcbs pcb mq next =
    remove_element fuel mq (pcbs pcb).priority pcb next
