-- ===== src/Kernel/Primitives/Receive/Wait.antt =====
-- Waiting for a message (the branch of `kernel_receive_message` of kernel/primitives.c that leaves).
use door_rtos.Base.{
  write_ne, ℕ, ◌≡◌, ◌≢◌, sym, refl, ◌∙◌, true, false, List, arith, Ptr, null, Links, write, last,
}
use door_rtos.Task.{Pcbs, running, message_wait}
use door_rtos.Queue.{is_empty}
use door_rtos.MetaQueue.{MetaQueue}
use door_rtos.MetaQueue.Invariant.{Lists}
use door_rtos.Kernel.Monad.{Kernel, done, switched}
use door_rtos.Kernel.Queues.{dequeue_ready}
use door_rtos.Kernel.Process.{
  current, update_pcb, set_state, set_stack_pointer, leave_for, context_switch,
}
use door_rtos.Kernel.Invariant.{
  NoneParked-write, IsScheduled, Within-pop, Absent-within, Filed-within, Apart-within, Filed-same,
}
use door_rtos.Kernel.Ready.{IsFirst, pop_at, dequeue_ready-Popped}
use door_rtos.Kernel.Primitives.{wait_for_message, kernel_receive_message}
use door_rtos.Kernel.Primitives.Wake.{IsReceiver}
use door_rtos.Kernel.Primitives.Receive.{inbox, receive_empty-eq}

-- The PCBs after the running process has stopped to wait for a message and `t` runs.
abbrev parked : Kernel → Pcbs
parked k =
    write k.pcbs k.current_pcb (set_state message_wait (set_stack_pointer k.tmp_sp (current k)))

abbrev resumed : Ptr → Kernel → Pcbs
resumed t k = write (parked k) t (set_state running (parked k t))

abbrev waited : Ptr → Kernel → Pcbs
waited t k =
    write (resumed t k) k.current_pcb (set_stack_pointer k.tmp_sp (resumed t k k.current_pcb))

module _ (k : Kernel) where
  parked-priority : (a : Ptr) → (parked k a).priority ≡ (k.pcbs a).priority
  unfolding write
  parked-priority a = ground arith

  waited-priority : (t a : Ptr) → (waited t k a).priority ≡ (k.pcbs a).priority
  unfolding write
  waited-priority t a = ground arith

  waited-states :
      (t : Ptr)
      → t ≢ k.current_pcb
      → ((waited t k k.current_pcb).state ≡ message_wait) × ((waited t k t).state ≡ running)
  unfolding write
  waited-states t ne = ground arith

  abbrev unanswered : Kernel
  unanswered = record k { swi = record k.swi { msg_return = 0 } }

  wait_for_message-eq :
      (t : Ptr) (mq : MetaQueue) (next : Links)
      → t ≢ null
      → k.current_pcb ≢ null
      → dequeue_ready (record unanswered { pcbs = parked k })
        ≡ done t (record unanswered { pcbs = parked k; ready_queue = mq; pcb_next = next })
      → wait_for_message k
        ≡ switched (
            leave_for t
              (record unanswered { pcbs = waited t k; ready_queue = mq; pcb_next = next }))
  unfolding wait_for_message update_pcb context_switch
  wait_for_message-eq t mq next ne ne' deq = ground (arith, deq)

parked-IsScheduled :
    (k : Kernel) (rs ws : Lists)
    → IsScheduled k rs ws
    → IsScheduled (record (unanswered k) { pcbs = parked k }) rs ws
parked-IsScheduled k rs ws is = record {
  ready = is.ready;
  waiting = is.waiting;
  apart = is.apart;
  ready_filed = Filed-same k.pcbs (parked k) rs (parked-priority k) is.ready_filed;
  waiting_filed = Filed-same k.pcbs (parked k) ws (parked-priority k) is.waiting_filed;
  current_ne = is.current_ne;
  current_bound = rw (parked-priority k k.current_pcb) is.current_bound;
  current_ready = is.current_ready;
  current_waiting = is.current_waiting;
}

waited-state :
    (k : Kernel) (t a : Ptr)
    → a ≢ k.current_pcb
    → (waited t k a).state ≡ message_wait
    → (k.pcbs a).state ≡ message_wait
waited-state k t a ne h =
    let before =
      NoneParked-write (parked k) _ k.current_pcb _
        (NoneParked-write (parked k) (parked k) t _ (λ b e. e) (λ e. cc)) (λ e. e) a h in
    rw
      (write_ne k.pcbs k.current_pcb
        (set_state message_wait (set_stack_pointer k.tmp_sp (current k))) a ne)
      at before

-- What a process that waits leaves: the oldest of the highest ready priority, `t`, runs, and the
-- process is one that `kernel_send_message` can wake.
pub record HasLeft (k : Kernel) (rs ws : Lists) (t : Ptr) (k' : Kernel) : Type 0 where
  pub scheduled : IsScheduled k' rs ws
  pub runs : k'.current_pcb ≡ t
  pub state : (k'.pcbs t).state ≡ running
  pub receiver : IsReceiver k' rs ws k.current_pcb
  pub parked :
      (a : Ptr)
      → a ≢ k.current_pcb
      → (k'.pcbs a).state ≡ message_wait
      → (k.pcbs a).state ≡ message_wait

-- In a scheduled kernel, outside an i-process, with a ready process and an empty queue of
-- messages that the running process has, `kernel_receive_message` leaves for the oldest ready
-- process of the smallest number. The scheduler's invariant holds then, and the process that
-- waits is one that a message to it can wake.
pub kernel_receive_message-HasLeft :
    (k : Kernel) (rs ws : Lists) (p : ℕ) (x : Ptr) (xs : List Ptr)
    → IsScheduled k rs ws
    → IsFirst rs p x xs
    → inbox k ≢ null
    → is_empty (k.mess_queues (inbox k)) ≡ true
    → k.in_i_process ≡ false
    → (k' : Kernel) × (kernel_receive_message k ≡ switched k')
      × HasLeft k (pop_at rs p x xs) ws (last x xs) k'
unfolding leave_for
kernel_receive_message-HasLeft k rs ws p x xs is f ne none out =
    let t = last x xs in
    let rs' = pop_at rs p x xs in
    let within = Within-pop rs p x xs f.holds in
    let k1 : Kernel = record (unanswered k) { pcbs = parked k } in
    let (mq, next, pop) = dequeue_ready-Popped (parked-IsScheduled k rs ws is) f in
    let same = waited-priority k t in
    let states = waited-states k t pop.ne_current in
    (
      leave_for t (record (unanswered k) { pcbs = waited t k; ready_queue = mq; pcb_next = next }),
      receive_empty-eq k ne none out
          ∙ wait_for_message-eq k t mq next pop.ne_null is.current_ne pop.result,
      record {
        scheduled = record {
          ready = pop.ready;
          waiting = pop.waiting;
          apart = Apart-within rs' rs within ws is.apart;
          ready_filed =
              Filed-same k.pcbs (waited t k) rs' same
                (Filed-within rs' rs within k.pcbs is.ready_filed);
          waiting_filed = Filed-same k.pcbs (waited t k) ws same is.waiting_filed;
          current_ne = pop.ne_null;
          current_bound = rw (same t) (rw (parked-priority k t) at pop.bound);
          current_ready = pop.absent_ready;
          current_waiting = pop.absent_waiting;
        };
        runs = refl;
        state = states.1;
        receiver = record {
          ne_null = is.current_ne;
          ne_current = λ s. pop.ne_current (sym s);
          bound = rw (same k.current_pcb) is.current_bound;
          waits = states.0;
          absent_ready = Absent-within rs' rs within k.current_pcb is.current_ready;
          absent_waiting = is.current_waiting;
        };
        parked = waited-state k t;
      },
    )
