-- ===== src/Kernel/Primitives/Receive.antt =====
-- Receiving a message that is there (`kernel_receive_message` of kernel/primitives.c).
pub mod Wait
use door_rtos.Base.{
  ℕ, ◌≤◌, ◌≡◌, ◌≢◌, sym, refl, ◌∙◌, ap, Bool, true, false, ◌&&◌, not, Bool-cases, inl, inr, List,
  [], ◌∷◌, arith, ◌==◌, if◌then◌else◌, Ptr, null, Links, ok, write, ==_refl, length, last, front,
}
use door_rtos.Task.{Pcb, Pcbs, State, running, message_wait, num_prio}
use door_rtos.Queue.{Queue, is_empty, dequeue_fifo}
use door_rtos.Queue.Chain.{IsQueue, SameOutside}
use door_rtos.Queue.Fifo.{dequeue_fifo-Taken}
use door_rtos.MetaQueue.{MetaQueue}
use door_rtos.MetaQueue.Invariant.{Lists, IsMeta}
use door_rtos.MetaQueue.Enqueue.{Absent}
use door_rtos.Kernel.Monad.{Kernel, Swi, Run, done, switched, walk_fuel, set_swi}
use door_rtos.Kernel.Queues.{is_msgq_empty, dequeue_message_fifo, dequeue_ready}
use door_rtos.Kernel.Process.{
  current, update_pcb, set_state, set_stack_pointer, leave_for, context_switch,
}
use door_rtos.Kernel.Invariant.{
  IsScheduled, Within-pop, Absent-within, Filed-within, Apart-within, Filed-same,
}
use door_rtos.Kernel.Ready.{IsFirst, pop_at, Popped, dequeue_ready-Popped}
use door_rtos.Kernel.Primitives.{wait_for_message, take_message, kernel_receive_message}
use door_rtos.Kernel.Primitives.Wake.{IsReceiver}

-- The running process's queue of messages.
abbrev pub inbox : Kernel → Ptr
inbox k = (current k).mess_queue

-- The kernel after a message has been taken from the queue at `a`.
abbrev pub received : (a e : Ptr) → Queue → Links → Kernel → Kernel
received a e q next k = record k {
  mess_queues = write k.mess_queues a q;
  mess_next = next;
  swi = record k.swi { msg_return = 1; ret_code_recv = e };
}

module _ (k : Kernel) (ne : inbox k ≢ null) where
  receive-eq :
      (e : Ptr) (q : Queue) (next : Links)
      → is_empty (k.mess_queues (inbox k)) ≡ false
      → dequeue_fifo walk_fuel (k.mess_queues (inbox k)) k.mess_next ≡ ok (e, q, next)
      → kernel_receive_message k ≡ done e (received (inbox k) e q next k)
  unfolding kernel_receive_message take_message is_msgq_empty dequeue_message_fifo
  receive-eq e q next some r = ground (arith, some, r)

  pub receive_empty-eq :
      is_empty (k.mess_queues (inbox k)) ≡ true
      → k.in_i_process ≡ false
      → kernel_receive_message k ≡ wait_for_message k
  unfolding kernel_receive_message is_msgq_empty
  receive_empty-eq none out = ground (arith, none, out)

  pub receive_none-eq :
      is_empty (k.mess_queues (inbox k)) ≡ true
      → k.in_i_process ≡ true
      → kernel_receive_message k ≡ done null (record k { swi = record k.swi { msg_return = 1 } })
  unfolding kernel_receive_message is_msgq_empty
  receive_none-eq none i = ground (arith, none, i)

  pub receive-received :
      (x : Ptr) (xs : List Ptr)
      → IsQueue k.mess_next (k.mess_queues (inbox k)) (x ∷ xs)
      → length xs ≤ walk_fuel
      → (q : Queue) × (next : Links) × (kernel_receive_message k
          ≡ done (last x xs) (received (inbox k) (last x xs) q next k))
        × IsQueue next q (front x xs)
        × SameOutside (x ∷ xs) k.mess_next next
  unfolding is_empty
  receive-received x xs is h =
      let (q, next, r, is', same) =
        dequeue_fifo-Taken walk_fuel k.mess_next (k.mess_queues (inbox k)) x xs is h in
      let some : is_empty (k.mess_queues (inbox k)) ≡ false =
        ground (arith, is.chain.0, is.chain.1) in
      (q, next, receive-eq (last x xs) q next some r, is', same)

  -- When the running process has a queue of messages that is not empty and within the walk's
  -- fuel, `kernel_receive_message` returns its oldest message, leaves the others in order, and
  -- sets `ret_code_recv` to the message and `msg_return` to 1.
  pub kernel_receive_message-last :
      (x : Ptr) (xs : List Ptr)
      → IsQueue k.mess_next (k.mess_queues (inbox k)) (x ∷ xs)
      → length xs ≤ walk_fuel
      → (k' : Kernel) × (kernel_receive_message k ≡ done (last x xs) k')
        × IsQueue k'.mess_next (k'.mess_queues (inbox k)) (front x xs)
        × (k'.swi.ret_code_recv ≡ last x xs)
        × (k'.swi.msg_return ≡ 1)
  unfolding write
  kernel_receive_message-last x xs is h =
      let (q, next, r, is', same) = receive-received x xs is h in
      (received (inbox k) (last x xs) q next k, r, rw (==_refl (inbox k)) is', refl, refl)
