-- ===== src/MetaQueue/Dequeue.antt =====
-- `dequeue_PCB_FIFO_by_priority` of kernel/queue.c, against the lists of processes.
use door_rtos.Base.{
  ℕ, ◌≤◌, ◌<◌, ◌≡◌, sym, inl, inr, List, [], ◌∷◌, arith, ltb, Bool-cases, Ptr, null, Links, ok,
  write, write_ne, length, mem, last, front, not-mem-front,
}
use door_rtos.Queue.{Queue, dequeue_fifo}
use door_rtos.Queue.Chain.{IsQueue, Disjoint, SameOutside}
use door_rtos.Queue.Fifo.{dequeue_fifo-Taken}
use door_rtos.Task.{num_prio}
use door_rtos.MetaQueue.{MetaQueue, raise_highest, raise_fuel, dequeue_by_priority}
use door_rtos.MetaQueue.Invariant.{
  Lists, IsMeta, IsFamily, IsHighest, IsFamily-write, Raised, raise_highest-Raised, highest-eq,
  highest_empty, eq-nil_of_empty, ne-nil_of_full,
}

-- After the loop `highest_prio` is right, if the queues below its start are empty.
pub IsHighest-Raised :
    {next : Links} {qs : ℕ → Queue} {xss : Lists} {p p' : ℕ}
    → IsFamily next qs xss
    → ((i : ℕ) → i < p → xss i ≡ [])
    → Raised qs p p'
    → IsHighest p' xss
IsHighest-Raised {qs} {p} is low r = record {
  bound = r.bound;
  below = λ i h. elim (Bool-cases (ltb i p)) [
    | inl l ↦ low i (ground arith)
    | inr g ↦
        eq-nil_of_empty _ (is.queues i (omega (arith, r.bound))) (r.skipped i (ground arith) h)
  ];
  top = λ h. ne-nil_of_full _ (is.queues _ h) (r.full h);
}

-- The process `t` is handed out, and `p` has the queue `ys` left.
pub record Dequeued (next : Links) (xss : Lists) (p : ℕ) (ys : List Ptr) (mq' : MetaQueue)
    (next' : Links) : Type 0 where
  pub meta : IsMeta next' mq' (write xss p ys)
  pub same : SameOutside (xss p) next next'

Disjoint-front : (x : Ptr) (xs ys : List Ptr) → Disjoint (x ∷ xs) ys → Disjoint (front x xs) ys
Disjoint-front x xs ys apart a m = elim (Bool-cases (mem a (x ∷ xs))) [
  | inl i ↦ apart a i
  | inr o ↦ absurd (let o' = not-mem-front a x xs o in cc)
]

dequeue_by_priority-parts :
    {p p' : ℕ} {t : Ptr} {q' : Queue} {next' : Links} (fuel : ℕ) (mq : MetaQueue) (next : Links)
    → mq.highest_prio ≡ p
    → p ≤ num_prio
    → dequeue_fifo fuel (mq.subqueues p) next ≡ ok (t, q', next')
    → raise_highest raise_fuel p (write mq.subqueues p q') ≡ ok p'
    → dequeue_by_priority fuel mq next
      ≡ ok (t, record { highest_prio = p'; subqueues = write mq.subqueues p q' }, next')
unfolding dequeue_by_priority
dequeue_by_priority-parts fuel mq next top h r up = ground (arith, top, h, r, up)

module _ {next : Links} {mq : MetaQueue} {xss : Lists} (is : IsMeta next mq xss) where
  -- On well-formed queues where `p` is the smallest priority with a process and its queue is
  -- within the fuel, `dequeue_PCB_FIFO_by_priority` returns the oldest process of `p`, leaves
  -- the others in order and the queues well formed, and writes no link outside that queue.
  pub dequeue_by_priority-IsMeta :
      (fuel p : ℕ) (x : Ptr) (xs : List Ptr)
      → p ≤ num_prio
      → xss p ≡ x ∷ xs
      → ((i : ℕ) → i < p → xss i ≡ [])
      → length xs ≤ fuel
      → (mq' : MetaQueue) × (next' : Links) × (dequeue_by_priority fuel mq next
          ≡ ok (last x xs, mq', next'))
        × Dequeued next xss p (front x xs) mq' next'
  unfolding dequeue_by_priority
  dequeue_by_priority-IsMeta fuel p x xs h e low enough =
      let top : mq.highest_prio ≡ p = highest-eq is p h (λ t. cc) low in
      let here : IsQueue next (mq.subqueues p) (x ∷ xs) = rw e at (is.family.queues p h) in
      let (q', next', r, isq, same) =
        dequeue_fifo-Taken fuel next (mq.subqueues p) x xs here enough in
      let family : IsFamily next' (write mq.subqueues p q') (write xss p (front x xs)) =
        IsFamily-write p (x ∷ xs) is.family same isq (λ i b n. (
          rw e at (is.family.apart i p b h n),
          Disjoint-front x xs (xss i) (rw e at (is.family.apart p i h b (λ t. n (sym t)))),
        )) in
      let (p', up, raised) =
        raise_highest-Raised raise_fuel p (write mq.subqueues p q') (omega arith) (omega arith) in
      (
        record { highest_prio = p'; subqueues = write mq.subqueues p q' },
        next',
        dequeue_by_priority-parts fuel mq next top h r up,
        record {
          meta = record {
            family = family;
            highest =
                IsHighest-Raised family
                  (λ i l. rw (write_ne xss p (front x xs) i (omega arith)) (low i l)) raised;
          };
          same = rw e same;
        },
      )

  -- With every queue empty NULL is returned and nothing changes.
  pub dequeue_by_priority_empty :
      (fuel : ℕ)
      → ((i : ℕ) → i ≤ num_prio → xss i ≡ [])
      → dequeue_by_priority fuel mq next ≡ ok (null, mq, next)
  unfolding dequeue_by_priority
  dequeue_by_priority_empty fuel none_left = let past = highest_empty is none_left in ground arith
