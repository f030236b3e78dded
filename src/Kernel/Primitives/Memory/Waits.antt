-- ===== src/Kernel/Primitives/Memory/Waits.antt =====
-- The branch of `kernel_request_memory_block` of kernel/primitives.c without a free block.
use door_rtos.Base.{
  ℕ, ◌≡◌, ◌≢◌, refl, ◌∙◌, ap, false, List, [], arith, if◌then◌else◌, Ptr, null, Links, write, last,
}
use door_rtos.Task.{Pcbs, running, memory_wait}
use door_rtos.Queue.Chain.{IsQueue, Disjoint-symm}
use door_rtos.MetaQueue.{MetaQueue}
use door_rtos.MetaQueue.Invariant.{Lists, IsMeta}
use door_rtos.MetaQueue.Enqueue.{push_at}
use door_rtos.Kernel.Monad.{Kernel, done, switched}
use door_rtos.Kernel.Queues.{enqueue_memory_wait, dequeue_ready}
use door_rtos.Kernel.Process.{
  current, update_pcb, set_state, set_stack_pointer, leave_for, context_switch,
}
use door_rtos.Kernel.Invariant.{
  NoneParked, NoneParked-write, IsScheduled, Apart, Within-pop, Filed-within, Apart-within,
  Filed-push, Apart-push, Filed-same,
}
use door_rtos.Kernel.Ready.{IsFirst, pop_at, dequeue_ready-Popped_parts}
use door_rtos.Kernel.Waiting.{enqueue_memory_wait-Parked}
use door_rtos.Kernel.Primitives.{wait_for_memory, kernel_request_memory_block}
use door_rtos.Kernel.Primitives.Memory.{kernel_request_memory_block-nil}

pub Apart-symm : (rs ws : Lists) → Apart rs ws → Apart ws rs
Apart-symm rs ws apart i j h k = Disjoint-symm (rs j) (ws i) (apart j i k h)

-- The PCBs after the running process has stopped to wait for memory and `t` runs.
abbrev stopped : Kernel → Pcbs
stopped k = write k.pcbs k.current_pcb (set_state memory_wait (current k))

abbrev started : Ptr → Kernel → Pcbs
started t k = write (stopped k) t (set_state running (stopped k t))

abbrev handed_over : Ptr → Kernel → Pcbs
handed_over t k =
    write (started t k) k.current_pcb (set_stack_pointer k.tmp_sp (started t k k.current_pcb))

module _ (k : Kernel) where
  stopped-priority : (a : Ptr) → (stopped k a).priority ≡ (k.pcbs a).priority
  unfolding write
  stopped-priority a = ground arith

  handed_over-priority : (t a : Ptr) → (handed_over t k a).priority ≡ (k.pcbs a).priority
  unfolding write
  handed_over-priority t a = ground arith

  handed_over-states :
      (t : Ptr)
      → t ≢ k.current_pcb
      → ((handed_over t k k.current_pcb).state ≡ memory_wait)
        × ((handed_over t k t).state ≡ running)
  unfolding write
  handed_over-states t ne = ground arith

  wait_for_memory-eq :
      (t : Ptr) (mq1 mq2 : MetaQueue) (next1 next2 : Links)
      → t ≢ null
      → k.current_pcb ≢ null
      → enqueue_memory_wait k.current_pcb (record k { pcbs = stopped k })
        ≡ done tt (record k { pcbs = stopped k; memory_wait_queue = mq1; pcb_next = next1 })
      → dequeue_ready (record k { pcbs = stopped k; memory_wait_queue = mq1; pcb_next = next1 })
        ≡ done t (record k {
          pcbs = stopped k;
          memory_wait_queue = mq1;
          ready_queue = mq2;
          pcb_next = next2;
        })
      → wait_for_memory k
        ≡ switched (
            leave_for t (record k {
              pcbs = handed_over t k;
              memory_wait_queue = mq1;
              ready_queue = mq2;
              pcb_next = next2;
            }))
  unfolding wait_for_memory update_pcb context_switch
  wait_for_memory-eq t mq1 mq2 next1 next2 ne ne' enq deq = ground (arith, enq, deq)

handed_over-NoneParked : (t : Ptr) (k : Kernel) → NoneParked k.pcbs (handed_over t k)
handed_over-NoneParked t k =
    NoneParked-write k.pcbs _ k.current_pcb _
      (NoneParked-write k.pcbs _ t _
        (NoneParked-write k.pcbs k.pcbs k.current_pcb _ (λ a h. h) (λ e. cc)) (λ e. cc))
      (λ e. e)

request_waits-eq :
    (k : Kernel)
    → IsQueue k.block_next k.free_mem_q []
    → k.in_i_process ≡ false
    → kernel_request_memory_block k ≡ wait_for_memory k
request_waits-eq k free out =
    kernel_request_memory_block-nil k free
    ∙ ap (λ b. if b then done null k else wait_for_memory k) out

-- The process that asked waits for memory, in the queue of its number, and `t` runs.
pub record HasWaited (k : Kernel) (rs ws : Lists) (t : Ptr) (k' : Kernel) : Type 0 where
  pub scheduled : IsScheduled k' rs (push_at ws (current k).priority k.current_pcb)
  pub runs : k'.current_pcb ≡ t
  pub state : (k'.pcbs t).state ≡ running
  pub left_state : (k'.pcbs k.current_pcb).state ≡ memory_wait
  pub parked : NoneParked k.pcbs k'.pcbs

-- In a scheduled kernel with a ready process, outside an i-process and with no free block,
-- `kernel_request_memory_block` leaves for the oldest ready process of the smallest number. The
-- process that asked is then the newest of its number that waits for memory, and the scheduler's
-- invariant holds.
pub kernel_request_memory_block-HasWaited :
    {k : Kernel} {rs ws : Lists} (p : ℕ) (x : Ptr) (xs : List Ptr)
    → IsScheduled k rs ws
    → IsFirst rs p x xs
    → IsQueue k.block_next k.free_mem_q []
    → k.in_i_process ≡ false
    → (k' : Kernel) × (kernel_request_memory_block k ≡ switched k')
      × HasWaited k (pop_at rs p x xs) ws (last x xs) k'
unfolding leave_for
kernel_request_memory_block-HasWaited {k} {rs} {ws} p x xs is f free out =
    let t = last x xs in
    let cur = k.current_pcb in
    let prio : ℕ = (current k).priority in
    let rs' = pop_at rs p x xs in
    let within = Within-pop rs p x xs f.holds in
    let same1 = stopped-priority k in
    let k1 : Kernel = record k { pcbs = stopped k } in
    let (mq1, next1, parked) =
      enqueue_memory_wait-Parked k1 rs ws cur is.ready is.waiting is.current_ne
        (rw (same1 cur) is.current_bound) is.current_ready is.current_waiting in
    let ws' = push_at ws prio cur in
    let waiting1 : IsMeta next1 mq1 ws' = rw (same1 cur) at parked.waiting in
    let apart : Apart rs ws' =
      Apart-symm ws' rs (Apart-push ws prio cur rs (Apart-symm rs ws is.apart) is.current_ready) in
    let (mq2, next2, pop) =
      dequeue_ready-Popped_parts (record k1 { memory_wait_queue = mq1; pcb_next = next1 })
        parked.ready waiting1 apart (Filed-same k.pcbs (stopped k) rs same1 is.ready_filed)
        is.current_ready f in
    let same = handed_over-priority k t in
    let states = handed_over-states k t pop.ne_current in
    (
      leave_for t (record k {
        pcbs = handed_over t k;
        memory_wait_queue = mq1;
        ready_queue = mq2;
        pcb_next = next2;
      }),
      request_waits-eq k free out
          ∙ wait_for_memory-eq k t mq1 mq2 next1 next2 pop.ne_null is.current_ne parked.result
              pop.result,
      record {
        scheduled = record {
          ready = pop.ready;
          waiting = pop.waiting;
          apart = Apart-within rs' rs within ws' apart;
          ready_filed =
              Filed-same k.pcbs (handed_over t k) rs' same
                (Filed-within rs' rs within k.pcbs is.ready_filed);
          waiting_filed =
              Filed-same k.pcbs (handed_over t k) ws' same
                (Filed-push ws prio cur k.pcbs is.waiting_filed refl);
          current_ne = pop.ne_null;
          current_bound = rw (same t) (rw (same1 t) at pop.bound);
          current_ready = pop.absent_ready;
          current_waiting = pop.absent_waiting;
        };
        runs = refl;
        state = states.1;
        left_state = states.0;
        parked = handed_over-NoneParked t k;
      },
    )
