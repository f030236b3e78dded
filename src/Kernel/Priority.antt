-- ===== src/Kernel/Priority.antt =====
-- The priorities of processes: `kernel_set_process_priority` and `kernel_get_process_priority` of
-- kernel/primitives.c.
pub mod Running
use door_rtos.Base.{ℕ, ◌||◌, ◌==◌, ltb, leb, if◌then◌else◌, Ptr, null}
use door_rtos.Task.{message_wait, memory_wait, rtx_success, rtx_error, get_pcb, is_state}
use door_rtos.Kernel.Monad.{M, pure, gets, skip, set_swi, ◌>>=◌, ◌>>◌}
use door_rtos.Kernel.Queues.{enqueue_ready, enqueue_memory_wait, remove_ready, remove_memory_wait}
use door_rtos.Kernel.Process.{current, update_pcb, set_priority, process_switch}

-- The branch for the running process.
unfoldable pub set_running_priority : (pcb : Ptr) (priority : ℕ) → M ℕ
set_running_priority pcb priority = do
  old ← gets λ k. (k.pcbs pcb).priority
  update_pcb pcb (set_priority priority)
  if leb priority old then skip else process_switch
  pure rtx_success

-- The branch for a process that waits for memory.
unfoldable pub set_memory_wait_priority : (pcb : Ptr) (priority : ℕ) → M ℕ
set_memory_wait_priority pcb priority = do
  return_value ← remove_memory_wait pcb
  if return_value == rtx_error
      then pure rtx_error
      else (do update_pcb pcb (set_priority priority); enqueue_memory_wait pcb; pure rtx_success)

-- The branch for a process in the ready queue.
unfoldable pub set_ready_priority : (pcb : Ptr) (priority : ℕ) → M ℕ
set_ready_priority pcb priority = do
  return_value ← remove_ready pcb
  if return_value == rtx_error then pure rtx_error else (do
    update_pcb pcb (set_priority priority)
    enqueue_ready pcb
    k ← gets λ k. k
    if ltb priority (current k).priority then process_switch else skip
    pure rtx_success)

-- `priority` is a `UINT8`.
unfoldable pub kernel_set_process_priority : (process_id priority : ℕ) → M ℕ
kernel_set_process_priority process_id priority k =
    let pcb = get_pcb process_id k.pcbs in
    if (process_id == 0) || (priority == 4)
    then pure rtx_error k
    else if pcb == null
    then pure rtx_error k
    else if pcb == k.current_pcb
    then set_running_priority pcb priority k
    else if is_state memory_wait (k.pcbs pcb).state
    then set_memory_wait_priority pcb priority k
    else if is_state message_wait (k.pcbs pcb).state
    then (update_pcb pcb (set_priority priority) >> pure rtx_success) k
    else set_ready_priority pcb priority k

unfoldable pub kernel_get_process_priority : (process_id : ℕ) → M ℕ
kernel_get_process_priority process_id = do
  k ← gets λ k. k
  let pcb = get_pcb process_id k.pcbs
  if pcb == null then pure rtx_error else (do
    set_swi (λ s. record s { ret_code_get_prio = (k.pcbs pcb).priority })
    gets λ k. k.swi.ret_code_get_prio)
