-- ===== src/Kernel/Switch.antt =====
-- `process_switch` of kernel/primitives.c: round robin among the highest priority.
use door_rtos.Base.{
  ℕ, ◌≤◌, ◌<◌, ◌≡◌, ◌≢◌, refl, ◌∙◌, false, List, arith, Ptr, null, Links, write, last,
}
use door_rtos.Task.{Pcbs, ready, running}
use door_rtos.MetaQueue.{MetaQueue}
use door_rtos.MetaQueue.Invariant.{Lists, highest-eq}
use door_rtos.MetaQueue.Enqueue.{push_at}
use door_rtos.Kernel.Monad.{Kernel, done, switched}
use door_rtos.Kernel.Queues.{dequeue_ready, enqueue_ready}
use door_rtos.Kernel.Process.{
  current, update_pcb, set_state, set_stack_pointer, leave_for, context_switch, switch_to_next,
  process_switch,
}
use door_rtos.Kernel.Invariant.{
  NoneParked, NoneParked-write, IsScheduled, Within-pop, Absent-within, Filed-within, Apart-within,
  Absent-push, Filed-push, Apart-push, Filed-same,
}
use door_rtos.Kernel.Ready.{IsFirst, pop_at, dequeue_ready-Popped, enqueue_ready-Pushed}

-- In a scheduled kernel where the smallest number with a ready process is larger than that of
-- the running process, `process_switch` changes nothing.
pub process_switch_stays :
    {k : Kernel} {rs ws : Lists} (p : ℕ) (x : Ptr) (xs : List Ptr)
    → IsScheduled k rs ws
    → IsFirst rs p x xs
    → (current k).priority < p
    → process_switch k ≡ done tt k
unfolding process_switch
process_switch_stays p x xs is f h =
    let top = highest-eq is.ready p f.bound (rw f.holds (λ t. cc)) f.low in ground arith

-- The PCBs after a switch from `cur` to `t`.
abbrev pub switched_pcbs : (t cur sp : Ptr) → Pcbs → Pcbs
switched_pcbs t cur sp pcbs =
    let pcbs1 = write pcbs t (set_state running (pcbs t)) in
    let pcbs2 = write pcbs1 cur (set_state ready (pcbs1 cur)) in
    write pcbs2 cur (set_stack_pointer sp (pcbs2 cur))

switched_pcbs-priority :
    (t cur sp : Ptr) (pcbs : Pcbs) (a : Ptr)
    → (switched_pcbs t cur sp pcbs a).priority ≡ (pcbs a).priority
unfolding write
switched_pcbs-priority t cur sp pcbs a = ground arith

switched_pcbs-NoneParked :
    (t cur sp : Ptr) (pcbs : Pcbs) → NoneParked pcbs (switched_pcbs t cur sp pcbs)
switched_pcbs-NoneParked t cur sp pcbs =
    NoneParked-write pcbs _ cur _
      (NoneParked-write pcbs _ cur _ (NoneParked-write pcbs pcbs t _ (λ a h. h) (λ e. cc))
        (λ e. cc))
      (λ e. e)

switch_to_next-eq :
    (k : Kernel) (t : Ptr) (mq1 mq2 : MetaQueue) (next1 next2 : Links)
    → t ≢ null
    → k.current_pcb ≢ null
    → dequeue_ready k ≡ done t (record k { ready_queue = mq1; pcb_next = next1 })
    → (let pcbs1 : Pcbs = write k.pcbs t (set_state running (k.pcbs t)) in
        let pcbs2 : Pcbs = write pcbs1 k.current_pcb (set_state ready (pcbs1 k.current_pcb)) in
        enqueue_ready k.current_pcb (record k { ready_queue = mq1; pcb_next = next1; pcbs = pcbs2 })
        ≡ done tt (record k { ready_queue = mq2; pcb_next = next2; pcbs = pcbs2 }))
    → switch_to_next k
      ≡ switched (
          leave_for t (record k {
            ready_queue = mq2;
            pcb_next = next2;
            pcbs = switched_pcbs t k.current_pcb k.tmp_sp k.pcbs;
            in_i_process = false;
          }))
unfolding switch_to_next update_pcb context_switch
switch_to_next-eq k t mq1 mq2 next1 next2 ne ne' deq enq = ground (arith, deq, enq)

-- What a switch from `k` to the process `t` leaves: `t` runs, and the process that ran is the
-- newest ready one of its priority.
pub record Switched (k : Kernel) (rs ws : Lists) (t : Ptr) (k' : Kernel) : Type 0 where
  pub scheduled : IsScheduled k' (push_at rs (current k).priority k.current_pcb) ws
  pub runs : k'.current_pcb ≡ t
  pub state : (k'.pcbs t).state ≡ running
  pub left_state : (k'.pcbs k.current_pcb).state ≡ ready
  pub saved : (k'.pcbs k.current_pcb).stack_pointer ≡ k.tmp_sp
  pub restored : k'.tmp_sp ≡ (k.pcbs t).stack_pointer
  pub left_i_process : k'.in_i_process ≡ false
  pub priority : (a : Ptr) → (k'.pcbs a).priority ≡ (k.pcbs a).priority
  pub parked : NoneParked k.pcbs k'.pcbs

module _ (k : Kernel) (t : Ptr) (ne : t ≢ k.current_pcb) where
  switched_states :
      let pcbs : Pcbs = switched_pcbs t k.current_pcb k.tmp_sp k.pcbs in
      ((pcbs t).state ≡ running)
      × ((pcbs k.current_pcb).state ≡ ready)
      × ((pcbs k.current_pcb).stack_pointer ≡ k.tmp_sp)
      × ((pcbs t).stack_pointer ≡ (k.pcbs t).stack_pointer)
  unfolding write
  switched_states = ground arith

  middle_priority :
      (a : Ptr)
      → (write
          (write k.pcbs t (set_state running (k.pcbs t)))
          k.current_pcb
          (set_state ready (write k.pcbs t (set_state running (k.pcbs t)) k.current_pcb))
          a).priority
        ≡ (k.pcbs a).priority
  unfolding write
  middle_priority a = ground arith

process_switch_goes :
    {k : Kernel} {rs ws : Lists} {p : ℕ} {x : Ptr} {xs : List Ptr}
    → IsScheduled k rs ws
    → IsFirst rs p x xs
    → p ≤ (current k).priority
    → process_switch k ≡ switch_to_next k
unfolding process_switch
process_switch_goes {p} is f h =
    let top = highest-eq is.ready p f.bound (rw f.holds (λ t. cc)) f.low in ground arith

-- In a scheduled kernel where `p` is the smallest number with a ready process and at most that
-- of the running process, `process_switch` leaves for the oldest ready process of `p`. The one
-- that ran is then the newest ready one of its number, with its stack pointer saved, the other's
-- is restored, no i-process runs, and the scheduler's invariant holds.
pub process_switch-Switched :
    {k : Kernel} {rs ws : Lists} (p : ℕ) (x : Ptr) (xs : List Ptr)
    → IsScheduled k rs ws
    → IsFirst rs p x xs
    → p ≤ (current k).priority
    → (k' : Kernel) × (process_switch k ≡ switched k')
      × Switched k (pop_at rs p x xs) ws (last x xs) k'
unfolding leave_for
process_switch-Switched {k} {rs} {ws} p x xs is f h =
    let t = last x xs in
    let cur = k.current_pcb in
    let rs' = pop_at rs p x xs in
    let within = Within-pop rs p x xs f.holds in
    let (mq1, next1, pop) = dequeue_ready-Popped is f in
    let out = Absent-within rs' rs within cur is.current_ready in
    let ne : t ≢ cur = pop.ne_current in
    let pcbs1 : Pcbs = write k.pcbs t (set_state running (k.pcbs t)) in
    let pcbs2 : Pcbs = write pcbs1 cur (set_state ready (pcbs1 cur)) in
    let pcbs3 : Pcbs = switched_pcbs t cur k.tmp_sp k.pcbs in
    let prio : (pcbs2 cur).priority ≡ (k.pcbs cur).priority = middle_priority k t ne cur in
    let (mq2, next2, push) =
      enqueue_ready-Pushed (record k { ready_queue = mq1; pcb_next = next1; pcbs = pcbs2 }) rs' ws
        cur pop.ready pop.waiting is.current_ne (rw prio is.current_bound) out is.current_waiting in
    let eq =
      switch_to_next-eq k t mq1 mq2 next1 next2 pop.ne_null is.current_ne pop.result push.result in
    let states = switched_states k t ne in
    let same = switched_pcbs-priority t cur k.tmp_sp k.pcbs in
    (
      leave_for t (record k {
        ready_queue = mq2;
        pcb_next = next2;
        pcbs = switched_pcbs t cur k.tmp_sp k.pcbs;
        in_i_process = false;
      }),
      process_switch_goes is f h ∙ eq,
      record {
        scheduled = record {
          ready = rw prio at push.ready;
          waiting = push.waiting;
          apart =
              Apart-push rs' (k.pcbs cur).priority cur ws (Apart-within rs' rs within ws is.apart)
                is.current_waiting;
          ready_filed = Filed-same k.pcbs pcbs3 (push_at rs' (k.pcbs cur).priority cur) same (
              Filed-push rs' (k.pcbs cur).priority cur k.pcbs
                (Filed-within rs' rs within k.pcbs is.ready_filed) refl);
          waiting_filed = Filed-same k.pcbs pcbs3 ws same is.waiting_filed;
          current_ne = pop.ne_null;
          current_bound = rw (same t) pop.bound;
          current_ready = Absent-push rs' (k.pcbs cur).priority cur t pop.absent_ready ne;
          current_waiting = pop.absent_waiting;
        };
        runs = refl;
        state = states.0;
        left_state = states.1;
        saved = states.2;
        restored = states.3;
        left_i_process = refl;
        priority = same;
        parked = switched_pcbs-NoneParked t cur k.tmp_sp k.pcbs;
      },
    )
