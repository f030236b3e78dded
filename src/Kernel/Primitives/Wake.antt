-- ===== src/Kernel/Primitives/Wake.antt =====
-- Sending to a process that waits for a message (`kernel_send_message` of kernel/primitives.c).
pub mod Lost
use door_rtos.Base.{
  ℕ, ◌≤◌, ◌<◌, ◌≡◌, ◌≢◌, sym, refl, ◌∙◌, ap, true, false, ◌⊎◌, List, arith, Ptr, null, Links, ok,
  write, write_self, last,
}
use door_rtos.Task.{Pcbs, ready, message_wait, rtx_success, num_prio}
use door_rtos.Queue.{Queue, enqueue}
use door_rtos.MetaQueue.{MetaQueue}
use door_rtos.MetaQueue.Invariant.{Lists, IsMeta}
use door_rtos.MetaQueue.Enqueue.{Absent, push_at}
use door_rtos.Kernel.Monad.{Kernel, done, switched, and_then}
use door_rtos.Kernel.Queues.{enqueue_ready, dequeue_ready}
use door_rtos.Kernel.Process.{
  current, update_pcb, set_state, set_stack_pointer, leave_for, context_switch,
}
use door_rtos.Kernel.Invariant.{
  NoneParked, NoneParked-write, IsScheduled, Within-pop, Absent-within, Absent-push, Filed-push,
  Apart-push, Filed-same,
}
use door_rtos.Kernel.Ready.{IsFirst, pop_at, dequeue_ready-Popped, enqueue_ready-Pushed}
use door_rtos.Kernel.Primitives.{wake_receiver, kernel_send_message}
use door_rtos.Kernel.Primitives.Send.{
  IsSendable, IsSent, enqueue-IsSent, addressed, delivered, kernel_send_message-deliver,
  deliver_wait-eq,
}

-- A process that waits for a message: it is in no queue and does not run.
pub record IsReceiver (k : Kernel) (rs ws : Lists) (dest : Ptr) : Type 0 where
  pub ne_null : dest ≢ null
  pub ne_current : dest ≢ k.current_pcb
  pub bound : (k.pcbs dest).priority ≤ num_prio
  pub waits : (k.pcbs dest).state ≡ message_wait
  pub absent_ready : Absent dest rs
  pub absent_waiting : Absent dest ws

abbrev pub readied : Kernel → Ptr → Pcbs
readied k dest = write k.pcbs dest (set_state ready (k.pcbs dest))

pub readied-priority :
    (k : Kernel) (dest a : Ptr) → (readied k dest a).priority ≡ (k.pcbs a).priority
unfolding write
readied-priority k dest a = ground arith

module _ (k : Kernel) (source dest : Ptr) (mq : MetaQueue) (next : Links) (ne : source ≢ null)
    (ne' : dest ≢ null)
    (enq : enqueue_ready dest (record k { pcbs = readied k dest })
      ≡ done tt (record k { pcbs = readied k dest; ready_queue = mq; pcb_next = next })) where
  wake_stays-eq :
      ((k.pcbs dest).priority ≤ (k.pcbs source).priority) ⊎ (k.in_i_process ≡ true)
      → wake_receiver source dest k
        ≡ done tt (record k { pcbs = readied k dest; ready_queue = mq; pcb_next = next })
  unfolding wake_receiver update_pcb
  wake_stays-eq stay =
      ground (arith, enq, stay, readied-priority k dest source, readied-priority k dest dest)

  pub wake_leaves-eq :
      {t : Ptr} {k3 : Kernel}
      → (k.pcbs source).priority < (k.pcbs dest).priority
      → k.in_i_process ≡ false
      → dequeue_ready (record k { pcbs = readied k dest; ready_queue = mq; pcb_next = next })
        ≡ done t k3
      → wake_receiver source dest k ≡ context_switch t k3
  unfolding wake_receiver update_pcb
  wake_leaves-eq less out deq =
      ground
        (arith, enq, less, out, deq, readied-priority k dest source, readied-priority k dest dest)

module _ {k : Kernel} {rs ws : Lists} (is : IsScheduled k rs ws) {dest : Ptr}
    (r : IsReceiver k rs ws dest) where
  -- The kernel after the receiver has been put among the ready processes.
  pub woken-IsScheduled :
      (mq : MetaQueue) × (next : Links) × (enqueue_ready dest (record k { pcbs = readied k dest })
        ≡ done tt (record k { pcbs = readied k dest; ready_queue = mq; pcb_next = next }))
      × IsScheduled
          (record k { pcbs = readied k dest; ready_queue = mq; pcb_next = next })
          (push_at rs (k.pcbs dest).priority dest)
          ws
  woken-IsScheduled =
      let pcbs1 : Pcbs = readied k dest in
      let same = readied-priority k dest in
      let (mq, next, push) =
        enqueue_ready-Pushed (record k { pcbs = pcbs1 }) rs ws dest is.ready is.waiting r.ne_null
          (rw (same dest) r.bound) r.absent_ready r.absent_waiting in
      (
        mq,
        next,
        push.result,
        record {
          ready = rw (same dest) at push.ready;
          waiting = push.waiting;
          apart = Apart-push rs (k.pcbs dest).priority dest ws is.apart r.absent_waiting;
          ready_filed =
              Filed-same k.pcbs pcbs1 (push_at rs (k.pcbs dest).priority dest) same
                (Filed-push rs (k.pcbs dest).priority dest k.pcbs is.ready_filed refl);
          waiting_filed = Filed-same k.pcbs pcbs1 ws same is.waiting_filed;
          current_ne = is.current_ne;
          current_bound = rw (same k.current_pcb) is.current_bound;
          current_ready =
              Absent-push rs (k.pcbs dest).priority dest k.current_pcb is.current_ready
                (λ s. r.ne_current (sym s));
          current_waiting = is.current_waiting;
        },
      )

-- Filling in the envelope and queueing it is nothing to the scheduler.
module _ {k : Kernel} {rs ws : Lists} (a : Ptr) (q : Queue) (next : Links) (process_id : ℕ)
    (envelope : Ptr) where
  pub delivered-IsScheduled :
      IsScheduled k rs ws → IsScheduled (delivered a q next (addressed process_id envelope k)) rs ws
  delivered-IsScheduled is = record {
    ready = is.ready;
    waiting = is.waiting;
    apart = is.apart;
    ready_filed = is.ready_filed;
    waiting_filed = is.waiting_filed;
    current_ne = is.current_ne;
    current_bound = is.current_bound;
    current_ready = is.current_ready;
    current_waiting = is.current_waiting;
  }

  pub delivered-IsReceiver :
      {dest : Ptr}
      → IsReceiver k rs ws dest
      → IsReceiver (delivered a q next (addressed process_id envelope k)) rs ws dest
  delivered-IsReceiver r = record {
    ne_null = r.ne_null;
    ne_current = r.ne_current;
    bound = r.bound;
    waits = r.waits;
    absent_ready = r.absent_ready;
    absent_waiting = r.absent_waiting;
  }

module _ {k : Kernel} {rs ws : Lists} {process_id : ℕ} {envelope dest : Ptr} {xs : List Ptr}
    (is : IsScheduled k rs ws) (s : IsSendable k process_id envelope dest xs)
    (r : IsReceiver k rs ws dest) where
  pub sent_to_waiting :
      (q : Queue) (next : Links)
      → enqueue (k.mess_queues (k.pcbs dest).mess_queue) envelope k.mess_next ≡ ok (q, next)
      → kernel_send_message process_id envelope k
        ≡ and_then
            (wake_receiver k.current_pcb dest
              (delivered (k.pcbs dest).mess_queue q next (addressed process_id envelope k)))
            (λ _. done rtx_success)
  sent_to_waiting q next e =
      kernel_send_message-deliver k process_id envelope s.envelope_ne s.found s.dest_ne
      ∙ deliver_wait-eq (addressed process_id envelope k) _ dest envelope q next s.queue_ne e
          (rw r.waits)
      ∙ ap
          (λ p.
            and_then
              (wake_receiver p dest
                (delivered (k.pcbs dest).mess_queue q next (addressed process_id envelope k)))
              (λ _. done rtx_success))
          s.source

  -- In a scheduled kernel, a message that can be sent to a process that waits for one, of the
  -- same or a smaller number than the sender unless an i-process sends it, succeeds: the message
  -- is the newest of the receiver's queue, the receiver is the newest ready process of its
  -- number, the sender runs on, and the scheduler's invariant holds.
  pub kernel_send_message-wakes :
      ((k.pcbs dest).priority ≤ (current k).priority) ⊎ (k.in_i_process ≡ true)
      → (k' : Kernel) × (kernel_send_message process_id envelope k ≡ done rtx_success k')
        × IsScheduled k' (push_at rs (k.pcbs dest).priority dest) ws
        × IsSent k process_id envelope dest xs k'
        × ((k'.pcbs dest).state ≡ ready)
        × (k'.current_pcb ≡ k.current_pcb)
        × NoneParked k.pcbs k'.pcbs
  kernel_send_message-wakes stay =
      let (q, next, e, sent) = enqueue-IsSent s in
      let a = (k.pcbs dest).mess_queue in
      let kd = delivered a q next (addressed process_id envelope k) in
      let (mq, next', enq, is') =
        woken-IsScheduled (delivered-IsScheduled a q next process_id envelope is)
          (delivered-IsReceiver a q next process_id envelope r) in
      (
        record kd { pcbs = readied kd dest; ready_queue = mq; pcb_next = next' },
        sent_to_waiting q next e
            ∙ ap (λ m. and_then m (λ _. done rtx_success))
                (wake_stays-eq kd k.current_pcb dest mq next' is.current_ne r.ne_null enq stay),
        is',
        record { queue = sent.queue; sender = sent.sender; receiver = sent.receiver },
        ap (λ p. p.state) (write_self k.pcbs dest (set_state ready (k.pcbs dest))),
        refl,
        NoneParked-write k.pcbs k.pcbs dest _ (λ a h. h) (λ e. cc),
      )
