-- ===== src/Kernel/Primitives/Wake/Lost.antt =====
-- Sending to a waiting process of a larger number (`kernel_send_message` of kernel/primitives.c).
use door_rtos.Base.{
  Links, ℕ, ◌<◌, ◌≡◌, ◌≢◌, refl, ◌∙◌, ap, false, List, arith, Ptr, null, write, last,
}
use door_rtos.MetaQueue.{MetaQueue}
use door_rtos.Task.{Pcbs, ready, rtx_success}
use door_rtos.MetaQueue.Invariant.{Lists}
use door_rtos.MetaQueue.Enqueue.{Absent, push_at}
use door_rtos.Kernel.Monad.{Kernel, done, switched, and_then}
use door_rtos.Kernel.Process.{current, update_pcb, set_stack_pointer, leave_for, context_switch}
use door_rtos.Kernel.Invariant.{
  NoneParked, NoneParked-write, Filed-within, Apart-within, Filed-same, IsScheduled, Within-pop,
  Absent-within,
}
use door_rtos.Kernel.Ready.{Popped, IsFirst, pop_at, dequeue_ready-Popped}
use door_rtos.Kernel.Primitives.{kernel_send_message}
use door_rtos.Kernel.Primitives.Send.{IsSendable, enqueue-IsSent, addressed, delivered}
use door_rtos.Kernel.Primitives.Wake.{
  IsReceiver, readied, woken-IsScheduled, delivered-IsScheduled, delivered-IsReceiver,
  sent_to_waiting, wake_leaves-eq,
}

saved_pcbs-state :
    (k : Kernel) (dest cur : Ptr)
    → dest ≢ cur
    → (write (readied k dest) cur (set_stack_pointer k.tmp_sp (readied k dest cur)) cur).state
      ≡ (k.pcbs cur).state
unfolding write
saved_pcbs-state k dest cur ne = ground arith

context_switch-eq :
    {A : Type 0} (t : Ptr) (k : Kernel)
    → t ≢ null
    → k.current_pcb ≢ null
    → context_switch {A = A} t k
      ≡ switched (
          leave_for t (record k {
            pcbs = write k.pcbs k.current_pcb (set_stack_pointer k.tmp_sp (k.pcbs k.current_pcb));
          }))
unfolding context_switch update_pcb
context_switch-eq t k ne ne' = ground arith

-- The process that ran in `k` does not run in `k'` and is in no queue, so no later switch finds it.
pub record IsLost (k k' : Kernel) (rs ws : Lists) : Type 0 where
  pub scheduled : IsScheduled k' rs ws
  pub not_ready : Absent k.current_pcb rs
  pub not_waiting : Absent k.current_pcb ws
  pub not_running : k'.current_pcb ≢ k.current_pcb
  pub parked : NoneParked k.pcbs k'.pcbs

abbrev lost_pcbs : Kernel → (dest cur : Ptr) → Pcbs
lost_pcbs k dest cur = write (readied k dest) cur (set_stack_pointer k.tmp_sp (readied k dest cur))

lost_pcbs-priority :
    (k : Kernel) (dest cur a : Ptr)
    → (lost_pcbs k dest cur a).priority ≡ (readied k dest a).priority
unfolding write
lost_pcbs-priority k dest cur a = ground arith

lost_pcbs-state :
    (k : Kernel) (dest cur : Ptr) → dest ≢ cur → (lost_pcbs k dest cur dest).state ≡ ready
unfolding write
lost_pcbs-state k dest cur ne = ground arith

lost_pcbs-NoneParked : (k : Kernel) (dest cur : Ptr) → NoneParked k.pcbs (lost_pcbs k dest cur)
lost_pcbs-NoneParked k dest cur =
    NoneParked-write k.pcbs _ cur _ (NoneParked-write k.pcbs k.pcbs dest _ (λ a h. h) (λ e. cc))
      (λ e. e)

-- The scheduler's invariant holds without the sender.
lost-IsScheduled :
    (k : Kernel) (dest : Ptr) {mq mq3 : MetaQueue} {next next3 : Links} {rs ws : Lists} {p : ℕ}
    {y : Ptr} {ys : List Ptr}
    → IsScheduled (record k { pcbs = readied k dest; ready_queue = mq; pcb_next = next }) rs ws
    → IsFirst rs p y ys
    → Popped
        (record k { pcbs = readied k dest; ready_queue = mq; pcb_next = next })
        (pop_at rs p y ys)
        ws
        (last y ys)
        mq3
        next3
    → IsScheduled
        (leave_for
          (last y ys)
          (record k { pcbs = lost_pcbs k dest k.current_pcb; ready_queue = mq3; pcb_next = next3 }))
        (pop_at rs p y ys)
        ws
unfolding leave_for
lost-IsScheduled k dest {rs} {ws} {p} {y} {ys} is f pop =
    let same = lost_pcbs-priority k dest k.current_pcb in
    let within = Within-pop rs p y ys f.holds in
    record {
      ready = pop.ready;
      waiting = pop.waiting;
      apart = Apart-within (pop_at rs p y ys) rs within ws is.apart;
      ready_filed =
          Filed-same (readied k dest) (lost_pcbs k dest k.current_pcb) (pop_at rs p y ys) same
            (Filed-within (pop_at rs p y ys) rs within (readied k dest) is.ready_filed);
      waiting_filed =
          Filed-same (readied k dest) (lost_pcbs k dest k.current_pcb) ws same is.waiting_filed;
      current_ne = pop.ne_null;
      current_bound = rw (same (last y ys)) pop.bound;
      current_ready = pop.absent_ready;
      current_waiting = pop.absent_waiting;
    }

module _ {k : Kernel} {rs ws : Lists} {process_id : ℕ} {envelope dest : Ptr} {xs : List Ptr}
    (is : IsScheduled k rs ws) (s : IsSendable k process_id envelope dest xs)
    (r : IsReceiver k rs ws dest) where
  -- In a scheduled kernel and outside an i-process, a message that can be sent to a process that
  -- waits for one, of a larger number than the sender, leaves for the first ready process `last
  -- y ys`. The sender is then in no queue by priority, does not run, and its state is what it
  -- was; the receiver's is ready, and the scheduler's invariant holds.
  pub kernel_send_message-IsLost :
      (p : ℕ) (y : Ptr) (ys : List Ptr)
      → (current k).priority < (k.pcbs dest).priority
      → k.in_i_process ≡ false
      → IsFirst (push_at rs (k.pcbs dest).priority dest) p y ys
      → (k' : Kernel) × (kernel_send_message process_id envelope k ≡ switched k')
        × (k'.current_pcb ≡ last y ys)
        × IsLost k k' (pop_at (push_at rs (k.pcbs dest).priority dest) p y ys) ws
        × ((k'.pcbs k.current_pcb).state ≡ (current k).state)
        × ((k'.pcbs dest).state ≡ ready)
  unfolding leave_for
  kernel_send_message-IsLost p y ys less out f =
      let (q, next, e, sent) = enqueue-IsSent s in
      let a = (k.pcbs dest).mess_queue in
      let kd = delivered a q next (addressed process_id envelope k) in
      let rs1 = push_at rs (k.pcbs dest).priority dest in
      let (mq, next', enq, is') =
        woken-IsScheduled (delivered-IsScheduled a q next process_id envelope is)
          (delivered-IsReceiver a q next process_id envelope r) in
      let k2 = record kd { pcbs = readied kd dest; ready_queue = mq; pcb_next = next' } in
      let (mq3, next3, pop) = dequeue_ready-Popped is' f in
      let k3 = record k2 { ready_queue = mq3; pcb_next = next3 } in
      (
        leave_for (last y ys) (record k3 {
          pcbs = write k3.pcbs k.current_pcb (set_stack_pointer k.tmp_sp (k3.pcbs k.current_pcb));
        }),
        sent_to_waiting is s r q next e
            ∙ ap (λ m. and_then m (λ _. done rtx_success))
                (wake_leaves-eq kd k.current_pcb dest mq next' is.current_ne r.ne_null enq less out
                    pop.result
                  ∙ context_switch-eq (last y ys) k3 pop.ne_null is.current_ne),
        refl,
        record {
          scheduled = lost-IsScheduled kd dest is' f pop;
          not_ready =
              Absent-within (pop_at rs1 p y ys) rs1 (Within-pop rs1 p y ys f.holds) k.current_pcb
                is'.current_ready;
          not_waiting = is.current_waiting;
          not_running = pop.ne_current;
          parked = lost_pcbs-NoneParked kd dest k.current_pcb;
        },
        saved_pcbs-state kd dest k.current_pcb r.ne_current,
        lost_pcbs-state kd dest k.current_pcb r.ne_current,
      )
