-- ===== src/System/Steps.antt =====
-- A running system as a state machine: calls of the running process and interrupts.
use door_rtos.Base.{ℕ, ◌≤◌, ◌<◌, ◌≡◌, ◌≢◌, List, Ptr, null, length, ◌∉◌}
use door_rtos.Task.{message_wait, num_prio, pcb_at, get_pcb}
use door_rtos.Queue.Chain.{IsQueue}
use door_rtos.MetaQueue.Invariant.{Lists}
use door_rtos.Kernel.Monad.{Kernel, Run, done, switched, crashed, stuck, M, walk_fuel, skip, ◌>>◌}
use door_rtos.Kernel.Process.{process_switch}
use door_rtos.Kernel.Primitives.{
  kernel_send_message, kernel_receive_message, kernel_request_memory_block,
  kernel_release_memory_block,
}
use door_rtos.Kernel.Primitives.Send.{IsSendable, kernel_send_message-error}
use door_rtos.Kernel.Primitives.Receive.{inbox}
use door_rtos.Kernel.Delayed.{kernel_delayed_send}
use door_rtos.Kernel.Delayed.Insert.{IsDelayed}
use door_rtos.Kernel.Interrupts.{timer_pid, uart_pid, timer_handler, uart_handler}
use door_rtos.Kernel.Interrupts.Scheduled.{IsIdle}
use door_rtos.Kernel.Priority.{kernel_set_process_priority, kernel_get_process_priority}
use door_rtos.System.Running.{IsRunning, Keeps, Keeps-done, Keeps-and_then}
use door_rtos.System.Switching.{process_switch-Keeps, timer_handler-Keeps, uart_handler-Keeps}
use door_rtos.System.Memory.{kernel_request_memory_block-Keeps, kernel_release_memory_block-Keeps}
use door_rtos.System.Messages.{with_messages-IsRunning, kernel_receive_message-Keeps}
use door_rtos.System.Delays.{kernel_delayed_send-Keeps}
use door_rtos.System.Priorities.{
  IsSettable, kernel_get_process_priority-Keeps, kernel_set_process_priority-Keeps,
}
use door_rtos.System.Sends.{kernel_send_message-Keeps}

-- The kernel that code leaves, when it returns or switches.
abbrev pub Leaves : Run (Unit {0}) → Kernel → Type 0
Leaves (done a k) k' = k ≡ k'
Leaves (switched k) k' = k ≡ k'
Leaves crashed k' = ⊥
Leaves stuck k' = ⊥

-- The i-process `t` can be started: it is in no queue, whatever the queues are, and does not wait
-- for a message.
abbrev pub CanStart : Kernel → Ptr → Type 0
CanStart k t =
    ((rs ws : Lists) → IsRunning k rs ws → IsIdle k rs ws t) × ((k.pcbs t).state ≢ message_wait)

-- What can happen in the kernel `k`, and its outcome, with what has to hold for it: a call of the
-- running process, which is not the null process when the call can block, or an interrupt. A delayed send without a delay is a
-- send. The priority of a process that waits for memory stays, and that of a ready one that is the
-- last of several.
pub data Call (k : Kernel) : Run (Unit {0}) → Type 0 where
  processor_released : Call k (process_switch k)
  message_sent :
      {process_id : ℕ} {envelope dest : Ptr} {xs : List Ptr}
      → k.current_pcb ≢ pcb_at 0
      → IsSendable k process_id envelope dest xs
      → (k.pcbs dest).priority ≤ num_prio
      → Call k ((kernel_send_message process_id envelope >> skip) k)
  message_refused :
      (process_id : ℕ) (envelope : Ptr)
      → envelope ≢ null
      → get_pcb process_id k.pcbs ≡ null
      → Call k ((kernel_send_message process_id envelope >> skip) k)
  message_delayed :
      (process_id envelope delay : ℕ) (xs : List Ptr)
      → IsDelayed k xs
      → length xs < walk_fuel
      → envelope ≢ null
      → envelope ∉ xs
      → delay ≢ 0
      → Call k ((kernel_delayed_send process_id envelope delay >> skip) k)
  message_received :
      (xs : List Ptr)
      → k.current_pcb ≢ pcb_at 0
      → IsQueue k.mess_next (k.mess_queues (inbox k)) xs
      → length xs ≤ walk_fuel
      → inbox k ≢ null
      → Call k ((kernel_receive_message >> skip) k)
  block_requested :
      (bs : List Ptr)
      → k.current_pcb ≢ pcb_at 0
      → IsQueue k.block_next k.free_mem_q bs
      → length bs ≤ walk_fuel
      → Call k ((kernel_request_memory_block >> skip) k)
  block_released :
      (b : Ptr) (bs : List Ptr)
      → IsQueue k.block_next k.free_mem_q bs
      → b ≢ null
      → b ∉ bs
      → Call k ((kernel_release_memory_block b >> skip) k)
  priority_set :
      (pid n : ℕ) → IsSettable k pid n → Call k ((kernel_set_process_priority pid n >> skip) k)
  priority_read : (pid : ℕ) → Call k ((kernel_get_process_priority pid >> skip) k)
  timer_interrupt : (sp : Ptr) → CanStart k (pcb_at timer_pid) → Call k (timer_handler sp k)
  uart_interrupt : (sp : Ptr) → CanStart k (pcb_at uart_pid) → Call k (uart_handler sp k)

pub data Step (k k' : Kernel) : Type 0 where
  step : {r : Run (Unit {0})} → Call k r → Leaves r k' → Step k k'

pub data Reach (k : Kernel) : Kernel → Type 0 where
  at_start : Reach k k
  later : {k1 k2 : Kernel} → Reach k k1 → Step k1 k2 → Reach k k2

-- The kernel runs: its scheduler's state stands for some lists.
abbrev pub Runs : Kernel → Type 0
Runs k = (rs : Lists) × (ws : Lists) × IsRunning k rs ws

Keeps-skip : {A : Type 0} (m : M A) (k : Kernel) → Keeps (m k) → Keeps ((m >> skip) k)
Keeps-skip m k keeps = Keeps-and_then (m k) (λ a. skip) keeps (λ a k' rs ws is. (rs, ws, is))

-- In a kernel that runs, a call or an interrupt for which its conditions hold neither crashes nor
-- gets stuck: on every branch that they leave it returns or leaves for another process, in a kernel
-- that runs. The conditions are those of `Call`. The null process makes no call that can block. An
-- envelope that is sent is not NULL, and its receiver is unknown, or has a well-formed queue that it
-- is not in and a number in range, and then the sender is found by its pid. One that is delayed, by a
-- delay other than 0, is not NULL and not among the delayed ones, a chain of fewer than 256. A
-- process that receives has a well-formed queue of at most 256 messages. The free blocks are a
-- well-formed queue, of at most 256 for a request, and a block that is released is not NULL and not
-- among them. A change of priority is refused, or is one of a process that waits for a message, or,
-- with a number in range, of the running process or of a ready one that is not the last of several
-- and has at most 255 behind it. The i-process that an interrupt starts does not run, is in no queue
-- and does not wait for a message.
pub Call-Keeps :
    {k : Kernel} {rs ws : Lists} {r : Run (Unit {0})} → IsRunning k rs ws → Call k r → Keeps r
Call-Keeps is processor_released = process_switch-Keeps is
Call-Keeps is (message_sent busy s b) =
    Keeps-skip (kernel_send_message _ _) _ (kernel_send_message-Keeps is s b busy)
Call-Keeps is (message_refused pid e ne unknown) = Keeps-skip (kernel_send_message pid e) _ (
    Keeps-done _ _ (kernel_send_message-error _ pid e ne unknown)
      (with_messages-IsRunning _ _ _ _ is))
Call-Keeps is (message_delayed pid e n xs delayed h ne out pos) =
    Keeps-skip (kernel_delayed_send pid e n) _
      (kernel_delayed_send-Keeps pid e n xs is delayed h ne out pos)
Call-Keeps is (message_received xs busy box h ne) =
    Keeps-skip kernel_receive_message _ (kernel_receive_message-Keeps is xs box h ne busy)
Call-Keeps is (block_requested bs busy free h) =
    Keeps-skip kernel_request_memory_block _ (kernel_request_memory_block-Keeps is bs free h busy)
Call-Keeps is (block_released b bs free ne out) =
    Keeps-skip (kernel_release_memory_block b) _
      (kernel_release_memory_block-Keeps is b bs free ne out)
Call-Keeps is (priority_set pid n can) =
    Keeps-skip (kernel_set_process_priority pid n) _
      (kernel_set_process_priority-Keeps pid n is can)
Call-Keeps is (priority_read pid) =
    Keeps-skip (kernel_get_process_priority pid) _ (kernel_get_process_priority-Keeps pid is)
Call-Keeps is (timer_interrupt sp (idle, awake)) = timer_handler-Keeps is sp (idle _ _ is) awake
Call-Keeps is (uart_interrupt sp (idle, awake)) = uart_handler-Keeps is sp (idle _ _ is) awake

Keeps-Leaves : (r : Run (Unit {0})) {k' : Kernel} → Keeps r → Leaves r k' → Runs k'
Keeps-Leaves (done a k) runs e = rw e at runs
Keeps-Leaves (switched k) runs e = rw e at runs
Keeps-Leaves crashed runs e = absurd e
Keeps-Leaves stuck runs e = absurd e

Step-Runs : {k k' : Kernel} → Step k k' → Runs k → Runs k'
Step-Runs (step {r} c l) (rs, ws, is) = Keeps-Leaves r (Call-Keeps is c) l

-- However calls and interrupts follow each other, when the conditions of each hold where it happens,
-- a kernel that runs keeps running.
pub Reach-Runs : {k k' : Kernel} → Runs k → Reach k k' → Runs k'
Reach-Runs runs at_start = runs
Reach-Runs runs (later r s) = Step-Runs s (Reach-Runs runs r)
