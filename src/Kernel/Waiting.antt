-- ===== src/Kernel/Waiting.antt =====
-- Putting a process in the queue of those that wait for memory, and taking one out.
use door_rtos.Base.{ℕ, ◌≤◌, ◌≡◌, ◌≢◌, sym, List, [], ◌∷◌, Ptr, null, Links, ◌∈◌, mem-last, last}
use door_rtos.Task.{num_prio}
use door_rtos.Queue.Chain.{Disjoint-symm, Disjoint-single}
use door_rtos.MetaQueue.{MetaQueue}
use door_rtos.MetaQueue.Invariant.{Lists, IsMeta}
use door_rtos.MetaQueue.Enqueue.{Absent, push_at, enqueue_by_priority-IsMeta}
use door_rtos.MetaQueue.Dequeue.{dequeue_by_priority-IsMeta}
use door_rtos.Kernel.Monad.{Kernel, done, walk_fuel}
use door_rtos.Kernel.Queues.{enqueue_memory_wait, dequeue_memory_wait}
use door_rtos.Kernel.Invariant.{IsScheduled, IsMeta-frame, Chain-last}
use door_rtos.Kernel.Ready.{IsFirst, pop_at, not-mem-pop}

-- The kernel after `enqueue_memory_wait`.
pub record Parked (k : Kernel) (rs ws : Lists) (e : Ptr) (mq' : MetaQueue) (next' : Links)
    : Type 0 where
  pub result :
      enqueue_memory_wait e k ≡ done tt (record k { memory_wait_queue = mq'; pcb_next = next' })
  pub ready : IsMeta next' k.ready_queue rs
  pub waiting : IsMeta next' mq' (push_at ws (k.pcbs e).priority e)

pub enqueue_memory_wait-Parked :
    (k : Kernel) (rs ws : Lists) (e : Ptr)
    → IsMeta k.pcb_next k.ready_queue rs
    → IsMeta k.pcb_next k.memory_wait_queue ws
    → e ≢ null
    → (k.pcbs e).priority ≤ num_prio
    → Absent e rs
    → Absent e ws
    → (mq' : MetaQueue) × (next' : Links) × Parked k rs ws e mq' next'
unfolding enqueue_memory_wait
enqueue_memory_wait-Parked k rs ws e ready waiting ne h out out' =
    let (mq', next', r, d) =
      enqueue_by_priority-IsMeta k.pcbs k.pcb_next k.memory_wait_queue e ws waiting ne h out' in
    (
      mq',
      next',
      record {
        result = rw r;
        ready = IsMeta-frame (e ∷ []) d.same (λ i b. Disjoint-single e (rs i) (out i b)) ready;
        waiting = d.meta;
      },
    )

-- The kernel after `dequeue_memory_wait`, which hands out `t`.
pub record Freed (k : Kernel) (rs ws' : Lists) (t : Ptr) (mq' : MetaQueue) (next' : Links)
    : Type 0 where
  pub result :
      dequeue_memory_wait k ≡ done t (record k { memory_wait_queue = mq'; pcb_next = next' })
  pub ready : IsMeta next' k.ready_queue rs
  pub waiting : IsMeta next' mq' ws'
  pub ne_null : t ≢ null
  pub ne_current : t ≢ k.current_pcb
  pub bound : (k.pcbs t).priority ≤ num_prio
  pub absent_ready : Absent t rs
  pub absent_waiting : Absent t ws'

module _ {k : Kernel} {rs ws : Lists} (is : IsScheduled k rs ws) where
  pub dequeue_memory_wait-Freed :
      {p : ℕ} {x : Ptr} {xs : List Ptr}
      → IsFirst ws p x xs
      → (mq' : MetaQueue) × (next' : Links) × Freed k rs (pop_at ws p x xs) (last x xs) mq' next'
  unfolding dequeue_memory_wait
  dequeue_memory_wait-Freed {p} {x} {xs} f =
      let (mq', next', e, d) =
        dequeue_by_priority-IsMeta is.waiting walk_fuel p x xs f.bound f.holds f.low f.enough in
      let chain = rw f.holds at (is.waiting.family.queues p f.bound).chain in
      let (out, ne) = Chain-last k.pcb_next (k.memory_wait_queue.subqueues p).head x xs chain in
      let here : last x xs ∈ ws p = rw f.holds (mem-last x xs) in
      (
        mq',
        next',
        record {
          result = rw e;
          ready = IsMeta-frame (ws p) d.same (λ i h. is.apart i p h f.bound) is.ready;
          waiting = d.meta;
          ne_null = ne;
          ne_current = λ s. (let m = rw s at here in let o = is.current_waiting p f.bound in cc);
          bound = rw (is.waiting_filed p f.bound (last x xs) here) f.bound;
          absent_ready =
              λ i h. Disjoint-symm (rs i) (ws p) (is.apart i p h f.bound) (last x xs) here;
          absent_waiting =
              not-mem-pop ws p x xs (last x xs) out
                (λ i h n. is.waiting.family.apart p i f.bound h (λ s. n (sym s)) _ here);
        },
      )
