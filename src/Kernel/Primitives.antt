-- ===== src/Kernel/Primitives.antt =====
-- The kernel primitives of kernel/primitives.c: messages, memory blocks and priorities.
pub mod Memory
pub mod Send
pub mod Wake
pub mod Receive
use door_rtos.Base.{
  ℕ, zero, suc, ◌+◌, ◌-◌, ◌%◌, Bool, true, false, not, ◌&&◌, ◌==◌, ltb, leb, if◌then◌else◌, Ptr,
  null, Links, Outcome, ok, fault, out_of_fuel, write,
}
use door_rtos.Task.{
  Pcb, Pcbs, State, ready, running, message_wait, memory_wait, rtx_success, rtx_error, get_pcb,
  is_state,
}
use door_rtos.Message.{Mess, Messages, delayed_send_queue}
use door_rtos.Queue.{Queue, queue}
use door_rtos.MetaQueue.{is_meta_empty}
use door_rtos.Kernel.Monad.{
  Kernel, Swi, Run, done, switched, crashed, M, walk_fuel, pure, gets, modify, skip, lift, set_swi,
  ◌>>=◌, ◌>>◌,
}
use door_rtos.Kernel.Queues.{
  enqueue_ready, dequeue_ready, enqueue_memory_wait, dequeue_memory_wait, remove_ready,
  remove_memory_wait, is_msgq_empty, enqueue_message, dequeue_message_fifo,
  enqueue_free_memory_queue, dequeue_memory_block_fifo,
}
use door_rtos.Kernel.Process.{
  current, update_pcb, update_mess, set_state, set_priority, set_stack_pointer, context_switch,
  process_switch,
}

-- The receiver was waiting: it becomes ready, and a receiver of a larger priority number makes the
-- kernel leave for the first ready process.
unfoldable pub wake_receiver : (source dest : Ptr) → M (Unit {0})
wake_receiver source dest = do
  update_pcb dest (set_state ready)
  enqueue_ready dest
  k ← gets λ k. k
  if source == null
      then (λ k. crashed)
      else if ltb (k.pcbs source).priority (k.pcbs dest).priority && not k.in_i_process
      then (dequeue_ready >>= λ next_pcb. context_switch next_pcb)
      else skip

unfoldable pub deliver : (source dest envelope : Ptr) → M ℕ
deliver source dest envelope = do
  k ← gets λ k. k
  enqueue_message (k.pcbs dest).mess_queue envelope
  if is_state message_wait (k.pcbs dest).state then wake_receiver source dest else skip
  pure rtx_success

unfoldable pub kernel_send_message : (process_id : ℕ) (envelope : Ptr) → M ℕ
kernel_send_message process_id envelope = do
  source_pid ← gets λ k. (current k).pid
  update_mess envelope (λ m. record m { sender_pid = source_pid; dest_pid = process_id })
  k ← gets λ k. k
  if get_pcb process_id k.pcbs == null
      then pure rtx_error
      else deliver (get_pcb source_pid k.pcbs) (get_pcb process_id k.pcbs) envelope

-- Nothing to receive: the process waits, and the next ready one runs.
unfoldable pub wait_for_message : M Ptr
wait_for_message = do
  set_swi (λ s. record s { msg_return = 0 })
  k ← gets λ k. k
  update_pcb k.current_pcb (λ p. set_state message_wait (set_stack_pointer k.tmp_sp p))
  next_pcb ← dequeue_ready
  update_pcb next_pcb (set_state running)
  context_switch next_pcb

unfoldable pub take_message : M Ptr
take_message = do
  set_swi (λ s. record s { msg_return = 1 })
  k ← gets λ k. k
  e ← dequeue_message_fifo (current k).mess_queue
  set_swi (λ s. record s { ret_code_recv = e })
  pure e

unfoldable pub kernel_receive_message : M Ptr
kernel_receive_message = do
  k ← gets λ k. k
  empty ← is_msgq_empty (current k).mess_queue
  if k.in_i_process && empty
      then set_swi (λ s. record s { msg_return = 1 }) >> pure null
      else if empty && not k.in_i_process
      then wait_for_message
      else take_message

-- No block is free, outside an i-process: the process waits in the queue of its priority.
unfoldable pub wait_for_memory : M Ptr
wait_for_memory = do
  k ← gets λ k. k
  update_pcb k.current_pcb (set_state memory_wait)
  enqueue_memory_wait k.current_pcb
  next_pcb ← dequeue_ready
  update_pcb next_pcb (set_state running)
  context_switch next_pcb

-- `data` is the first field of a block, so a block and its data have one address.
unfoldable pub kernel_request_memory_block : M Ptr
kernel_request_memory_block = do
  mem_block ← dequeue_memory_block_fifo
  k ← gets λ k. k
  if mem_block == null
      then (if k.in_i_process then pure null else wait_for_memory)
      else pure mem_block

unfoldable pub wake_memory_waiter : M (Unit {0})
wake_memory_waiter = do
  p ← dequeue_memory_wait
  update_pcb p (set_state ready)
  enqueue_ready p
  k ← gets λ k. k
  if ltb (k.pcbs p).priority (current k).priority then process_switch else skip

unfoldable pub kernel_release_memory_block : (memory_block : Ptr) → M ℕ
kernel_release_memory_block memory_block = do
  enqueue_free_memory_queue memory_block
  k ← gets λ k. k
  if is_meta_empty k.memory_wait_queue then skip else wake_memory_waiter
  pure rtx_success
