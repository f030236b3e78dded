-- ===== src/Kernel/Primitives/Send.antt =====
-- Sending a message (`kernel_send_message` of kernel/primitives.c): every branch.
use door_rtos.Base.{
  ℕ, ◌≡◌, ◌≢◌, refl, ◌∙◌, true, false, List, ◌∷◌, arith, Ptr, null, Links, ok, write, ==_refl, ◌∉◌,
}
use door_rtos.Task.{message_wait, rtx_success, rtx_error, get_pcb, is_state}
use door_rtos.Queue.{Queue, enqueue}
use door_rtos.Queue.Chain.{IsQueue}
use door_rtos.Queue.Fifo.{enqueue-IsQueue}
use door_rtos.Kernel.Monad.{Kernel, done, and_then}
use door_rtos.Kernel.Queues.{enqueue_message}
use door_rtos.Kernel.Process.{current, update_mess}
use door_rtos.Kernel.Primitives.{wake_receiver, deliver, kernel_send_message}

-- The kernel with the envelope's header filled in.
abbrev pub addressed : (process_id : ℕ) (envelope : Ptr) → Kernel → Kernel
addressed process_id envelope k = record k {
  messages =
      write k.messages envelope
        (record (k.messages envelope) { sender_pid = (current k).pid; dest_pid = process_id });
}

-- The kernel with the envelope in the queue at `a`.
abbrev pub delivered : (a : Ptr) → Queue → Links → Kernel → Kernel
delivered a q next k = record k { mess_queues = write k.mess_queues a q; mess_next = next }

module _ (k : Kernel) (process_id : ℕ) (envelope : Ptr) (ne : envelope ≢ null) where
  -- A message to a pid that no PCB has is refused, though its header has been written.
  pub kernel_send_message-error :
      get_pcb process_id k.pcbs ≡ null
      → kernel_send_message process_id envelope k ≡ done rtx_error (addressed process_id envelope k)
  unfolding kernel_send_message update_mess
  kernel_send_message-error none_such = ground (arith, none_such)

  pub kernel_send_message-deliver :
      {dest : Ptr}
      → get_pcb process_id k.pcbs ≡ dest
      → dest ≢ null
      → kernel_send_message process_id envelope k
        ≡ deliver (get_pcb (current k).pid k.pcbs) dest envelope (addressed process_id envelope k)
  unfolding kernel_send_message update_mess
  kernel_send_message-deliver found ne' = ground (arith, found)

module _ (k : Kernel) (source dest envelope : Ptr) (q : Queue) (next : Links) where
  pub deliver_ready-eq :
      (k.pcbs dest).mess_queue ≢ null
      → enqueue (k.mess_queues (k.pcbs dest).mess_queue) envelope k.mess_next ≡ ok (q, next)
      → is_state message_wait (k.pcbs dest).state ≡ false
      → deliver source dest envelope k
        ≡ done rtx_success (delivered (k.pcbs dest).mess_queue q next k)
  unfolding deliver enqueue_message
  deliver_ready-eq ne r e = ground (arith, r, e)

  pub deliver_wait-eq :
      (k.pcbs dest).mess_queue ≢ null
      → enqueue (k.mess_queues (k.pcbs dest).mess_queue) envelope k.mess_next ≡ ok (q, next)
      → is_state message_wait (k.pcbs dest).state ≡ true
      → deliver source dest envelope k
        ≡ and_then
            (wake_receiver source dest (delivered (k.pcbs dest).mess_queue q next k))
            (λ _. done rtx_success)
  unfolding deliver enqueue_message
  deliver_wait-eq ne r e = ground (arith, r, e)

-- A message that can be sent: the receiver and its queue exist, the envelope is in no queue, and
-- the running process is found by its pid.
pub record IsSendable (k : Kernel) (process_id : ℕ) (envelope dest : Ptr) (xs : List Ptr)
    : Type 0 where
  pub found : get_pcb process_id k.pcbs ≡ dest
  pub dest_ne : dest ≢ null
  pub envelope_ne : envelope ≢ null
  pub queue_ne : (k.pcbs dest).mess_queue ≢ null
  pub queue : IsQueue k.mess_next (k.mess_queues (k.pcbs dest).mess_queue) xs
  pub fresh : envelope ∉ xs
  pub source : get_pcb (current k).pid k.pcbs ≡ k.current_pcb

-- The message is the newest of the receiver's queue, and its header names sender and receiver.
pub record IsSent (k : Kernel) (process_id : ℕ) (envelope dest : Ptr) (xs : List Ptr) (k' : Kernel)
    : Type 0 where
  pub queue : IsQueue k'.mess_next (k'.mess_queues (k.pcbs dest).mess_queue) (envelope ∷ xs)
  pub sender : (k'.messages envelope).sender_pid ≡ (current k).pid
  pub receiver : (k'.messages envelope).dest_pid ≡ process_id

module _ {k : Kernel} {process_id : ℕ} {envelope dest : Ptr} {xs : List Ptr}
    (s : IsSendable k process_id envelope dest xs) where
  pub enqueue-IsSent :
      (q : Queue) × (next : Links) × (enqueue
          (k.mess_queues (k.pcbs dest).mess_queue)
          envelope
          k.mess_next
        ≡ ok (q, next))
      × IsSent k process_id envelope dest xs
          (delivered (k.pcbs dest).mess_queue q next (addressed process_id envelope k))
  unfolding write
  enqueue-IsSent =
      let (q, next, r, is, same) =
        enqueue-IsQueue k.mess_next (k.mess_queues (k.pcbs dest).mess_queue) envelope xs s.queue
          s.envelope_ne s.fresh in
      (
        q,
        next,
        r,
        record {
          queue = rw (==_refl (k.pcbs dest).mess_queue) is;
          sender = ground arith;
          receiver = ground arith;
        },
      )

  -- A message that can be sent to a process that does not wait for one succeeds: it is the
  -- newest of the receiver's queue, its header names sender and receiver, and no PCB, the ready
  -- queue and the running process stay what they were.
  pub kernel_send_message-queued :
      is_state message_wait (k.pcbs dest).state ≡ false
      → (k' : Kernel) × (kernel_send_message process_id envelope k ≡ done rtx_success k')
        × IsSent k process_id envelope dest xs k'
        × (k'.pcbs ≡ k.pcbs)
        × (k'.ready_queue ≡ k.ready_queue)
        × (k'.current_pcb ≡ k.current_pcb)
  kernel_send_message-queued busy =
      let (q, next, r, sent) = enqueue-IsSent in
      (
        delivered (k.pcbs dest).mess_queue q next (addressed process_id envelope k),
        kernel_send_message-deliver k process_id envelope s.envelope_ne s.found s.dest_ne
            ∙ deliver_ready-eq (addressed process_id envelope k) _ dest envelope q next s.queue_ne r
                busy,
        sent,
        refl,
        refl,
        refl,
      )
