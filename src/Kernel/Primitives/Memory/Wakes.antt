-- ===== src/Kernel/Primitives/Memory/Wakes.antt =====
-- The branch of `kernel_release_memory_block` of kernel/primitives.c with a process that waits,
-- where it does not switch.
use door_rtos.Base.{
  ℕ, ◌≤◌, ◌≡◌, ◌≢◌, sym, refl, ◌∙◌, ap, false, if◌then◌else◌, Bool-cases, inl, inr, List, ◌∷◌,
  arith, ltb, ◌==◌, Ptr, null, Links, ok, write, write_self, last, ◌∉◌, mem-last,
}
use door_rtos.Task.{Pcbs, ready, rtx_success}
use door_rtos.Queue.{Queue, enqueue}
use door_rtos.Queue.Chain.{IsQueue}
use door_rtos.Queue.Fifo.{enqueue-IsQueue}
use door_rtos.MetaQueue.{MetaQueue, is_meta_empty}
use door_rtos.MetaQueue.Invariant.{Lists, is_meta_empty_iff}
use door_rtos.MetaQueue.Enqueue.{push_at}
use door_rtos.Kernel.Monad.{Kernel, done, skip, and_then}
use door_rtos.Kernel.Queues.{enqueue_free_memory_queue, dequeue_memory_wait, enqueue_ready}
use door_rtos.Kernel.Process.{current, update_pcb, set_state, process_switch}
use door_rtos.Kernel.Invariant.{
  NoneParked, NoneParked-write, IsScheduled, Apart, Within-pop, Absent-within, Filed-within,
  Apart-within, Absent-push, Filed-push, Apart-push, Filed-same,
}
use door_rtos.Kernel.Ready.{IsFirst, pop_at, enqueue_ready-Pushed}
use door_rtos.Kernel.Waiting.{dequeue_memory_wait-Freed}
use door_rtos.Kernel.Primitives.{wake_memory_waiter, kernel_release_memory_block}
use door_rtos.Kernel.Primitives.Memory.{with_blocks}
use door_rtos.Kernel.Primitives.Memory.Waits.{Apart-symm}

abbrev woken : Ptr → Kernel → Pcbs
woken t k = write k.pcbs t (set_state ready (k.pcbs t))

woken-priority : (t : Ptr) (k : Kernel) (a : Ptr) → (woken t k a).priority ≡ (k.pcbs a).priority
unfolding write
woken-priority t k a = ground arith

release_wakes-eq :
    (k : Kernel) (b t : Ptr) (q : Queue) (bnext : Links) (mq1 mq2 : MetaQueue) (next1 next2 : Links)
    → enqueue k.free_mem_q b k.block_next ≡ ok (q, bnext)
    → is_meta_empty k.memory_wait_queue ≡ false
    → dequeue_memory_wait (with_blocks k q bnext)
      ≡ done t (record (with_blocks k q bnext) { memory_wait_queue = mq1; pcb_next = next1 })
    → t ≢ null
    → enqueue_ready t (record (with_blocks k q bnext) {
      memory_wait_queue = mq1;
      pcb_next = next1;
      pcbs = woken t k;
    })
      ≡ done tt (record (with_blocks k q bnext) {
        memory_wait_queue = mq1;
        ready_queue = mq2;
        pcb_next = next2;
        pcbs = woken t k;
      })
    → kernel_release_memory_block b k
      ≡ and_then
          ((if ltb (k.pcbs t).priority (current k).priority then process_switch else skip)
            (record (with_blocks k q bnext) {
              memory_wait_queue = mq1;
              ready_queue = mq2;
              pcb_next = next2;
              pcbs = woken t k;
            }))
          (λ _. done rtx_success)
unfolding kernel_release_memory_block enqueue_free_memory_queue wake_memory_waiter update_pcb
release_wakes-eq k b t q bnext mq1 mq2 next1 next2 r full deq ne enq =
    let here : (t == null) ≡ false = ground arith in
    rw (r, full, deq, here, enq, woken-priority t k t, woken-priority t k k.current_pcb)

module _ {k : Kernel} {rs ws : Lists} (is : IsScheduled k rs ws) where
  not-empty :
      {p : ℕ} {x : Ptr} {xs : List Ptr}
      → IsFirst ws p x xs
      → is_meta_empty k.memory_wait_queue ≡ false
  not-empty {p} f = elim (Bool-cases (is_meta_empty k.memory_wait_queue)) [
    | inr full ↦ full
    | inl none ↦
        absurd (let e = (is_meta_empty_iff is.waiting).0 none p f.bound in let e' = f.holds in cc)
  ]

-- Free blocks are nothing to the scheduler.
pub with_blocks-IsScheduled :
    {k : Kernel} {rs ws : Lists} (q : Queue) (next : Links)
    → IsScheduled k rs ws
    → IsScheduled (with_blocks k q next) rs ws
with_blocks-IsScheduled q next is = record {
  ready = is.ready;
  waiting = is.waiting;
  apart = is.apart;
  ready_filed = is.ready_filed;
  waiting_filed = is.waiting_filed;
  current_ne = is.current_ne;
  current_bound = is.current_bound;
  current_ready = is.current_ready;
  current_waiting = is.current_waiting;
}

-- The kernel after `p`'s process `t` has been made ready: a switch may follow.
pub record Released (k : Kernel) (rs' ws' : Lists) (bs : List Ptr) (t : Ptr) (k' : Kernel)
    : Type 0 where
  pub scheduled : IsScheduled k' rs' ws'
  pub blocks : IsQueue k'.block_next k'.free_mem_q bs
  pub state : (k'.pcbs t).state ≡ ready
  pub runs : k'.current_pcb ≡ k.current_pcb
  pub parked : NoneParked k.pcbs k'.pcbs

pub release-Released :
    {k : Kernel} {rs ws : Lists} (b : Ptr) (bs : List Ptr) (p : ℕ) (x : Ptr) (xs : List Ptr)
    → IsScheduled k rs ws
    → IsFirst ws p x xs
    → IsQueue k.block_next k.free_mem_q bs
    → b ≢ null
    → b ∉ bs
    → (k' : Kernel) × (kernel_release_memory_block b k
        ≡ and_then
            ((if ltb p (current k).priority then process_switch else skip) k')
            (λ _. done rtx_success))
      × Released k (push_at rs p (last x xs)) (pop_at ws p x xs) (b ∷ bs) (last x xs) k'
release-Released {k} {rs} {ws} b bs p x xs is f free ne out =
    let t = last x xs in
    let ws' = pop_at ws p x xs in
    let within = Within-pop ws p x xs f.holds in
    let (q, bnext, r, free', same) = enqueue-IsQueue k.block_next k.free_mem_q b bs free ne out in
    let (mq1, next1, deq) = dequeue_memory_wait-Freed (with_blocks-IsScheduled q bnext is) f in
    let prio : (k.pcbs t).priority ≡ p =
      is.waiting_filed p f.bound t (rw f.holds (mem-last x xs)) in
    let same1 = woken-priority t k in
    let (mq2, next2, push) =
      enqueue_ready-Pushed
        (record (with_blocks k q bnext) {
          memory_wait_queue = mq1;
          pcb_next = next1;
          pcbs = woken t k;
        })
        rs ws' t deq.ready deq.waiting deq.ne_null (rw (same1 t) deq.bound) deq.absent_ready
        deq.absent_waiting in
    let apart : Apart rs ws' =
      Apart-symm ws' rs (Apart-within ws' ws within rs (Apart-symm rs ws is.apart)) in
    let k' : Kernel = record (with_blocks k q bnext) {
      memory_wait_queue = mq1;
      ready_queue = mq2;
      pcb_next = next2;
      pcbs = woken t k;
    } in
    (
      k',
      release_wakes-eq k b t q bnext mq1 mq2 next1 next2 r (not-empty is f) deq.result deq.ne_null
            push.result
          ∙ ap
              (λ n.
                and_then ((if ltb n (current k).priority then process_switch else skip) k')
                  (λ _. done rtx_success))
              prio,
      record {
        scheduled = record {
          ready = rw (same1 t, prio) at push.ready;
          waiting = push.waiting;
          apart = Apart-push rs p t ws' apart deq.absent_waiting;
          ready_filed =
              Filed-same k.pcbs (woken t k) (push_at rs p t) same1
                (Filed-push rs p t k.pcbs is.ready_filed prio);
          waiting_filed =
              Filed-same k.pcbs (woken t k) ws' same1
                (Filed-within ws' ws within k.pcbs is.waiting_filed);
          current_ne = is.current_ne;
          current_bound = rw (same1 k.current_pcb) is.current_bound;
          current_ready =
              Absent-push rs p t k.current_pcb is.current_ready (λ s. deq.ne_current (sym s));
          current_waiting = Absent-within ws' ws within k.current_pcb is.current_waiting;
        };
        blocks = free';
        state = ap (λ c. c.state) (write_self k.pcbs t (set_state ready (k.pcbs t)));
        runs = refl;
        parked = NoneParked-write k.pcbs k.pcbs t _ (λ a h. h) (λ e. cc);
      },
    )

-- In a scheduled kernel where `p` is the smallest number with a process that waits for memory, and
-- at least that of the running process, `kernel_release_memory_block` of a block that is not NULL
-- and not free succeeds: the block is the newest free one, the process that has waited for longest
-- at `p` is the newest ready one there, the running process runs on, and the scheduler's invariant
-- holds.
pub kernel_release_memory_block-wakes :
    {k : Kernel} {rs ws : Lists} (b : Ptr) (bs : List Ptr) (p : ℕ) (x : Ptr) (xs : List Ptr)
    → IsScheduled k rs ws
    → IsFirst ws p x xs
    → (current k).priority ≤ p
    → IsQueue k.block_next k.free_mem_q bs
    → b ≢ null
    → b ∉ bs
    → (k' : Kernel) × (kernel_release_memory_block b k ≡ done rtx_success k')
      × IsScheduled k' (push_at rs p (last x xs)) (pop_at ws p x xs)
      × IsQueue k'.block_next k'.free_mem_q (b ∷ bs)
      × ((k'.pcbs (last x xs)).state ≡ ready)
      × (k'.current_pcb ≡ k.current_pcb)
kernel_release_memory_block-wakes {k} b bs p x xs is f stay free ne out =
    let (k', r, d) = release-Released b bs p x xs is f free ne out in
    let runs_on : ltb p (current k).priority ≡ false = ground arith in
    (k', rw runs_on at r, d.scheduled, d.blocks, d.state, d.runs)
