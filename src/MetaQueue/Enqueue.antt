-- ===== src/MetaQueue/Enqueue.antt =====
-- `enqueue_PCB_by_priority` of kernel/queue.c, against the lists of processes.
use door_rtos.Base.{
  ℕ, ◌≤◌, ◌≡◌, ◌≢◌, sym, inl, inr, [], ◌∷◌, arith, ltb, ==_refl, ◌==◌, if◌then◌else◌, Bool-cases,
  Ptr, null, Links, ok, write, ◌∉◌,
}
use door_rtos.Queue.Chain.{SameOutside, Disjoint-single, Disjoint-cons}
use door_rtos.Queue.Fifo.{enqueue-IsQueue}
use door_rtos.Task.{Pcbs, num_prio}
use door_rtos.MetaQueue.{MetaQueue, enqueue_by_priority}
use door_rtos.MetaQueue.Invariant.{Lists, IsMeta, IsHighest, IsFamily-write}

-- The process is in none of the queues.
abbrev pub Absent : Ptr → Lists → Type 0
Absent pcb xss = (i : ℕ) → i ≤ num_prio → pcb ∉ xss i

abbrev pub push_at : Lists → ℕ → Ptr → Lists
push_at xss p e = write xss p (e ∷ xss p)

IsHighest-push :
    {p : ℕ} {xss : Lists} (prio : ℕ) (e : Ptr)
    → prio ≤ num_prio
    → IsHighest p xss
    → IsHighest (if ltb prio p then prio else p) (push_at xss prio e)
unfolding write
IsHighest-push {p} {xss} prio e h is = record {
  bound = ground (arith, is.bound);
  below = λ i b. ground (arith, is.below i);
  top = λ b. elim (Bool-cases (ltb prio p)) [
    | inl l ↦ rw (l, ==_refl prio) (λ t. cc)
    | inr g ↦ elim (Bool-cases (p == prio)) [
      | inl s ↦ rw (g, s) (λ t. cc)
      | inr s ↦ rw (g, s) (is.top (rw g at b))
    ]
  ];
}

-- What the operation leaves.
pub record Enqueued (pcbs : Pcbs) (next : Links) (xss : Lists) (pcb : Ptr) (mq' : MetaQueue)
    (next' : Links) : Type 0 where
  pub meta : IsMeta next' mq' (push_at xss (pcbs pcb).priority pcb)
  pub same : SameOutside (pcb ∷ []) next next'

-- On well-formed queues, `enqueue_PCB_by_priority` of a process that is not NULL, in no queue,
-- and of a priority in range makes it the newest of its priority, leaves the queues well formed,
-- and writes no link but its own.
pub enqueue_by_priority-IsMeta :
    (pcbs : Pcbs) (next : Links) (mq : MetaQueue) (pcb : Ptr) (xss : Lists)
    → IsMeta next mq xss
    → pcb ≢ null
    → (pcbs pcb).priority ≤ num_prio
    → Absent pcb xss
    → (mq' : MetaQueue) × (next' : Links) × (enqueue_by_priority pcbs mq pcb next ≡ ok (mq', next'))
      × Enqueued pcbs next xss pcb mq' next'
unfolding enqueue_by_priority write
enqueue_by_priority-IsMeta pcbs next mq pcb xss is ne h out =
    let prio : ℕ = (pcbs pcb).priority in
    let (q', next', e, isq, same) =
      enqueue-IsQueue next (mq.subqueues prio) pcb (xss prio) (is.family.queues prio h) ne
        (out prio h) in
    (
      record {
        highest_prio = if ltb prio mq.highest_prio then prio else mq.highest_prio;
        subqueues = write mq.subqueues prio q';
      },
      next',
      rw e,
      record {
        meta = record {
          family = IsFamily-write prio (pcb ∷ []) is.family same isq (λ i b n. (
            Disjoint-single pcb (xss i) (out i b),
            Disjoint-cons pcb (xss prio) (xss i) (out i b)
                (is.family.apart prio i h b (λ t. n (sym t))),
          ));
          highest = IsHighest-push prio pcb h is.highest;
        };
        same = same;
      },
    )
