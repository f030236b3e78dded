-- ===== src/Kernel/Interrupts/Scheduled.antt =====
-- The interrupt handlers of kernel/timer_handler.c and kernel/uart_handler.c and the scheduler's
-- invariant.
use door_rtos.Base.{ℕ, ◌≤◌, ◌≡◌, ◌≢◌, refl, true, arith, Ptr, null, Links, write}
use door_rtos.Task.{Pcbs, num_prio, pcb_at}
use door_rtos.MetaQueue.{MetaQueue}
use door_rtos.MetaQueue.Invariant.{Lists}
use door_rtos.MetaQueue.Enqueue.{Absent, push_at}
use door_rtos.Kernel.Monad.{Kernel, done, switched}
use door_rtos.Kernel.Queues.{enqueue_ready}
use door_rtos.Kernel.Process.{current, update_pcb, set_stack_pointer, leave_for, context_switch}
use door_rtos.Kernel.Invariant.{
  NoneParked, NoneParked-write, IsScheduled, Absent-push, Filed-push, Apart-push, Filed-same,
}
use door_rtos.Kernel.Ready.{Pushed, enqueue_ready-Pushed}
use door_rtos.Kernel.Interrupts.{timer_pid, uart_pid, timer_handler, uart_handler}

-- An i-process that can be left for: it is not the running process and in no queue.
pub record IsIdle (k : Kernel) (rs ws : Lists) (t : Ptr) : Type 0 where
  pub ne_null : t ≢ null
  pub ne_current : t ≢ k.current_pcb
  pub bound : (k.pcbs t).priority ≤ num_prio
  pub absent_ready : Absent t rs
  pub absent_waiting : Absent t ws

-- The i-process `t` runs, and the interrupted process is the newest ready one of its number, with
-- its stack pointer saved.
pub record Interrupted (k : Kernel) (rs ws : Lists) (sp t : Ptr) (k' : Kernel) : Type 0 where
  pub scheduled : IsScheduled k' (push_at rs (current k).priority k.current_pcb) ws
  pub runs : k'.current_pcb ≡ t
  pub in_i_process : k'.in_i_process ≡ true
  pub saved : (k'.pcbs k.current_pcb).stack_pointer ≡ sp
  pub restored : k'.tmp_sp ≡ (k.pcbs t).stack_pointer
  pub parked : NoneParked k.pcbs k'.pcbs

abbrev saved : Ptr → Kernel → Pcbs
saved sp k = write k.pcbs k.current_pcb (set_stack_pointer sp (current k))

abbrev saved_twice : Ptr → Kernel → Pcbs
saved_twice sp k =
    write (saved sp k) k.current_pcb (set_stack_pointer sp (saved sp k k.current_pcb))

abbrev entered : Ptr → Kernel → Kernel
entered sp k = record k { tmp_sp = sp; pcbs = saved sp k; in_i_process = true }

module _ (sp : Ptr) (k : Kernel) where
  saved-priority : (a : Ptr) → (saved sp k a).priority ≡ (k.pcbs a).priority
  unfolding write
  saved-priority a = ground arith

  saved_twice-priority : (a : Ptr) → (saved_twice sp k a).priority ≡ (k.pcbs a).priority
  unfolding write
  saved_twice-priority a = ground arith

  saved_twice-stack :
      (t : Ptr)
      → t ≢ k.current_pcb
      → ((saved_twice sp k k.current_pcb).stack_pointer ≡ sp)
        × ((saved_twice sp k t).stack_pointer ≡ (k.pcbs t).stack_pointer)
  unfolding write
  saved_twice-stack t ne = ground arith

module _ (sp : Ptr) (k : Kernel) (mq : MetaQueue) (next : Links) (ne : k.current_pcb ≢ null)
    (enq : enqueue_ready k.current_pcb (entered sp k)
      ≡ done tt (record (entered sp k) { ready_queue = mq; pcb_next = next })) where
  timer_handler-eq :
      timer_handler sp k
      ≡ switched (
          leave_for
            (pcb_at timer_pid)
            (record (entered sp k) { ready_queue = mq; pcb_next = next; pcbs = saved_twice sp k }))
  unfolding timer_handler update_pcb context_switch
  timer_handler-eq = ground (arith, enq)

  uart_handler-eq :
      uart_handler sp k
      ≡ switched (
          leave_for
            (pcb_at uart_pid)
            (record (entered sp k) { ready_queue = mq; pcb_next = next; pcbs = saved_twice sp k }))
  unfolding uart_handler update_pcb context_switch
  uart_handler-eq = ground (arith, enq)

module _ {k : Kernel} {rs ws : Lists} (is : IsScheduled k rs ws) (sp : Ptr) where
  enter-Pushed :
      (mq : MetaQueue) × (next : Links) × Pushed (entered sp k) rs ws k.current_pcb mq next
  enter-Pushed =
      enqueue_ready-Pushed (entered sp k) rs ws k.current_pcb is.ready is.waiting is.current_ne
        (rw (saved-priority sp k k.current_pcb) is.current_bound) is.current_ready
        is.current_waiting

  left-Interrupted :
      {t : Ptr} {mq : MetaQueue} {next : Links}
      → IsIdle k rs ws t
      → Pushed (entered sp k) rs ws k.current_pcb mq next
      → Interrupted k rs ws sp t (
          leave_for t
            (record (entered sp k) { ready_queue = mq; pcb_next = next; pcbs = saved_twice sp k }))
  unfolding leave_for
  left-Interrupted {t} idle push =
      let prio : ℕ = (current k).priority in
      let cur = k.current_pcb in
      let same = saved_twice-priority sp k in
      let stack = saved_twice-stack sp k t idle.ne_current in
      record {
        scheduled = record {
          ready = rw (saved-priority sp k cur) at push.ready;
          waiting = push.waiting;
          apart = Apart-push rs prio cur ws is.apart is.current_waiting;
          ready_filed =
              Filed-same k.pcbs (saved_twice sp k) (push_at rs prio cur) same
                (Filed-push rs prio cur k.pcbs is.ready_filed refl);
          waiting_filed = Filed-same k.pcbs (saved_twice sp k) ws same is.waiting_filed;
          current_ne = idle.ne_null;
          current_bound = rw (same t) idle.bound;
          current_ready = Absent-push rs prio cur t idle.absent_ready idle.ne_current;
          current_waiting = idle.absent_waiting;
        };
        runs = refl;
        in_i_process = refl;
        saved = stack.0;
        restored = stack.1;
        parked =
            NoneParked-write k.pcbs _ cur _
              (NoneParked-write k.pcbs k.pcbs cur _ (λ a h. h) (λ e. e)) (λ e. e);
      }

  -- In a scheduled kernel, when the timer i-process does not run, is in no queue and has a number in
  -- range, the timer's handler leaves for it. The interrupted process is then the newest ready one of its number, with
  -- its stack pointer saved, and the scheduler's invariant holds.
  pub timer_handler-Interrupted :
      IsIdle k rs ws (pcb_at timer_pid)
      → (k' : Kernel) × (timer_handler sp k ≡ switched k')
        × Interrupted k rs ws sp (pcb_at timer_pid) k'
  timer_handler-Interrupted idle =
      let (mq, next, push) = enter-Pushed in
      (_, timer_handler-eq sp k mq next is.current_ne push.result, left-Interrupted idle push)

  -- In a scheduled kernel, when the UART i-process does not run, is in no queue and has a number in
  -- range, the UART's handler leaves for it. The interrupted process is then the newest ready one of its number, with
  -- its stack pointer saved, and the scheduler's invariant holds.
  pub uart_handler-Interrupted :
      IsIdle k rs ws (pcb_at uart_pid)
      → (k' : Kernel) × (uart_handler sp k ≡ switched k')
        × Interrupted k rs ws sp (pcb_at uart_pid) k'
  uart_handler-Interrupted idle =
      let (mq, next, push) = enter-Pushed in
      (_, uart_handler-eq sp k mq next is.current_ne push.result, left-Interrupted idle push)
