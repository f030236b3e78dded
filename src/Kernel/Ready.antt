-- ===== src/Kernel/Ready.antt =====
-- Taking a process from the ready queue and putting one in, in a scheduled kernel.
use door_rtos.Base.{
  ℕ, ◌≤◌, ◌<◌, ◌≡◌, ◌≢◌, sym, inl, inr, List, [], ◌∷◌, arith, ◌==◌, Bool-cases, Ptr, null, Links,
  write, ◌∈◌, ◌∉◌, length, last, front, mem-last,
}
use door_rtos.Task.{num_prio}
use door_rtos.Queue.Chain.{Disjoint-symm, Disjoint-single}
use door_rtos.MetaQueue.{MetaQueue}
use door_rtos.MetaQueue.Invariant.{Lists, IsMeta}
use door_rtos.MetaQueue.Enqueue.{Absent, push_at, enqueue_by_priority-IsMeta}
use door_rtos.MetaQueue.Dequeue.{dequeue_by_priority-IsMeta}
use door_rtos.Kernel.Monad.{Kernel, done, walk_fuel}
use door_rtos.Kernel.Queues.{dequeue_ready, enqueue_ready}
use door_rtos.Kernel.Invariant.{IsScheduled, Filed, Apart, IsMeta-frame, Chain-last}

-- The oldest process of the smallest priority that has one is `last x xs`.
pub record IsFirst (rs : Lists) (p : ℕ) (x : Ptr) (xs : List Ptr) : Type 0 where
  pub bound : p ≤ num_prio
  pub holds : rs p ≡ x ∷ xs
  pub low : (i : ℕ) → i < p → rs i ≡ []
  pub enough : length xs ≤ walk_fuel

abbrev pub pop_at : Lists → ℕ → Ptr → List Ptr → Lists
pop_at rs p x xs = write rs p (front x xs)

-- The kernel after `dequeue_ready`, which hands out `t`.
pub record Popped (k : Kernel) (rs' ws : Lists) (t : Ptr) (mq' : MetaQueue) (next' : Links)
    : Type 0 where
  pub result : dequeue_ready k ≡ done t (record k { ready_queue = mq'; pcb_next = next' })
  pub ready : IsMeta next' mq' rs'
  pub waiting : IsMeta next' k.memory_wait_queue ws
  pub ne_null : t ≢ null
  pub ne_current : t ≢ k.current_pcb
  pub bound : (k.pcbs t).priority ≤ num_prio
  pub absent_ready : Absent t rs'
  pub absent_waiting : Absent t ws

pub not-mem-pop :
    (rs : Lists) (p : ℕ) (x : Ptr) (xs : List Ptr) (t : Ptr)
    → t ∉ front x xs
    → ((i : ℕ) → i ≤ num_prio → i ≢ p → t ∉ rs i)
    → Absent t (pop_at rs p x xs)
unfolding write
not-mem-pop rs p x xs t out others i h = elim (Bool-cases (i == p)) [
  | inl s ↦ rw s out
  | inr s ↦ rw s (others i h (ground arith))
]

-- The parts of the invariant that taking a process from the ready queue needs.
module _ (k : Kernel) {rs ws : Lists} (ready : IsMeta k.pcb_next k.ready_queue rs)
    (waiting : IsMeta k.pcb_next k.memory_wait_queue ws) (apart : Apart rs ws)
    (filed : Filed k.pcbs rs) (current_ready : Absent k.current_pcb rs) where
  pub dequeue_ready-Popped_parts :
      {p : ℕ} {x : Ptr} {xs : List Ptr}
      → IsFirst rs p x xs
      → (mq' : MetaQueue) × (next' : Links) × Popped k (pop_at rs p x xs) ws (last x xs) mq' next'
  unfolding dequeue_ready
  dequeue_ready-Popped_parts {p} {x} {xs} f =
      let (mq', next', e, d) =
        dequeue_by_priority-IsMeta ready walk_fuel p x xs f.bound f.holds f.low f.enough in
      let chain = rw f.holds at (ready.family.queues p f.bound).chain in
      let (out, ne) = Chain-last k.pcb_next (k.ready_queue.subqueues p).head x xs chain in
      let here : last x xs ∈ rs p = rw f.holds (mem-last x xs) in
      (
        mq',
        next',
        record {
          result = rw e;
          ready = d.meta;
          waiting =
              IsMeta-frame (rs p) d.same (λ i h. Disjoint-symm (rs p) (ws i) (apart p i f.bound h))
                waiting;
          ne_null = ne;
          ne_current = λ s. (let m = rw s at here in let o = current_ready p f.bound in cc);
          bound = rw (filed p f.bound (last x xs) here) f.bound;
          absent_ready =
              not-mem-pop rs p x xs (last x xs) out
                (λ i h n. ready.family.apart p i f.bound h (λ s. n (sym s)) _ here);
          absent_waiting = λ i h. apart p i f.bound h _ here;
        },
      )

module _ {k : Kernel} {rs ws : Lists} (is : IsScheduled k rs ws) where
  pub dequeue_ready-Popped :
      {p : ℕ} {x : Ptr} {xs : List Ptr}
      → IsFirst rs p x xs
      → (mq' : MetaQueue) × (next' : Links) × Popped k (pop_at rs p x xs) ws (last x xs) mq' next'
  dequeue_ready-Popped f =
      dequeue_ready-Popped_parts k is.ready is.waiting is.apart is.ready_filed is.current_ready f

-- Putting a process that is in no queue into the ready queue.
pub record Pushed (k : Kernel) (rs ws : Lists) (e : Ptr) (mq' : MetaQueue) (next' : Links)
    : Type 0 where
  pub result : enqueue_ready e k ≡ done tt (record k { ready_queue = mq'; pcb_next = next' })
  pub ready : IsMeta next' mq' (push_at rs (k.pcbs e).priority e)
  pub waiting : IsMeta next' k.memory_wait_queue ws

pub enqueue_ready-Pushed :
    (k : Kernel) (rs ws : Lists) (e : Ptr)
    → IsMeta k.pcb_next k.ready_queue rs
    → IsMeta k.pcb_next k.memory_wait_queue ws
    → e ≢ null
    → (k.pcbs e).priority ≤ num_prio
    → Absent e rs
    → Absent e ws
    → (mq' : MetaQueue) × (next' : Links) × Pushed k rs ws e mq' next'
unfolding enqueue_ready
enqueue_ready-Pushed k rs ws e ready waiting ne h out out' =
    let (mq', next', r, d) =
      enqueue_by_priority-IsMeta k.pcbs k.pcb_next k.ready_queue e rs ready ne h out in
    (
      mq',
      next',
      record {
        result = rw r;
        ready = d.meta;
        waiting = IsMeta-frame (e ∷ []) d.same (λ i b. Disjoint-single e (ws i) (out' i b)) waiting;
      },
    )
