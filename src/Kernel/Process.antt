-- ===== src/Kernel/Process.antt =====
-- Reads and writes of PCBs and messages through pointers, and the switch to another process
-- (`context_switch` and `process_switch` of kernel/primitives.c).
use door_rtos.Base.{ℕ, false, ◌==◌, leb, if◌then◌else◌, Ptr, null, write}
use door_rtos.Task.{Pcb, State, ready, running, rtx_error}
use door_rtos.Message.{Mess}
use door_rtos.Kernel.Monad.{
  Kernel, done, switched, crashed, M, gets, modify, skip, set_swi, ◌>>=◌, ◌>>◌,
}
use door_rtos.Kernel.Queues.{enqueue_ready, dequeue_ready}

abbrev pub current : Kernel → Pcb
current k = k.pcbs k.current_pcb

-- `*p = f (*p)`, which crashes at NULL.
unfoldable pub update_pcb : Ptr → (Pcb → Pcb) → M (Unit {0})
update_pcb p f k =
    if p == null then crashed else done tt (record k { pcbs = write k.pcbs p (f (k.pcbs p)) })

unfoldable pub update_mess : Ptr → (Mess → Mess) → M (Unit {0})
update_mess p f k =
    if p == null
    then crashed
    else done tt (record k { messages = write k.messages p (f (k.messages p)) })

abbrev pub set_state : State → Pcb → Pcb
set_state s p = record p { state = s }

abbrev pub set_priority : ℕ → Pcb → Pcb
set_priority n p = record p { priority = n }

abbrev pub set_stack_pointer : Ptr → Pcb → Pcb
set_stack_pointer a p = record p { stack_pointer = a }

-- The last steps restore the registers from the new stack and return from the exception.
unfoldable pub leave_for : Ptr → Kernel → Kernel
leave_for p k = record k { current_pcb = p; tmp_sp = (k.pcbs p).stack_pointer }

unfoldable pub context_switch : {A : Type 0} → Ptr → M A
context_switch next_pcb = do
  k ← gets λ k. k
  update_pcb k.current_pcb (set_stack_pointer k.tmp_sp)
  λ k. if next_pcb == null then crashed else switched (leave_for next_pcb k)

-- The branch of `process_switch` that switches.
unfoldable pub switch_to_next : M (Unit {0})
switch_to_next = do
  next_pcb ← dequeue_ready
  if next_pcb == null then set_swi (λ s. record s { ret_code = rtx_error }) else skip
  update_pcb next_pcb (set_state running)
  k ← gets λ k. k
  update_pcb k.current_pcb (set_state ready)
  enqueue_ready k.current_pcb
  modify λ k. record k { in_i_process = false }
  context_switch next_pcb

unfoldable pub process_switch : M (Unit {0})
process_switch k =
    if leb k.ready_queue.highest_prio (current k).priority then switch_to_next k else done tt k
