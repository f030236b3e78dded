-- ===== src/Boot/Scheduler.antt =====
-- PCBs and the first process: `init_process`, `init_stress_processes`, `init_s_processes`,
-- `init_i_processes` and `start_scheduler` of kernel/init.c, and `init_tasks` of kernel/task.c.
use door_rtos.Base.{
  ℕ, zero, suc, ◌+◌, ◌-◌, ◌%◌, ◌^◌, Bool, true, false, ◌==◌, if◌then◌else◌, List, [], ◌∷◌, Ptr,
  null, write,
}
use door_rtos.Task.{Pcb, Pcbs, ready, pcb_at, max_processes, high, medium, low, null_priority}
use door_rtos.MetaQueue.{init_meta}
use door_rtos.Message.{m_queue_at, delayed_send_queue}
use door_rtos.Kernel.Monad.{Kernel, M, crashed, switched, pure, modify, skip, ◌>>=◌, ◌>>◌}
use door_rtos.Kernel.Queues.{init_msg_queue, enqueue_ready, dequeue_ready}
use door_rtos.Kernel.Process.{update_pcb, leave_for}
use door_rtos.Kernel.Interrupts.{timer_pid, uart_pid}
use door_rtos.Boot.Stack.{init_local_stack}

-- `&__end`, and the entry of each process by its pid.
pub record Program : Type 0 where
  pub end_of_program : Ptr
  pub entry_of : ℕ → ℕ

-- What the assignments to one PCB are made from; an i-process is not queued.
pub record Setup : Type 0 where
  pub pid : ℕ
  pub priority : ℕ
  pub stack_size : ℕ
  pub is_i_process : Bool

abbrev pub setup : ℕ → ℕ → ℕ → Setup
setup n p size = record { pid = n; priority = p; stack_size = size; is_i_process = false }

abbrev pub i_setup : ℕ → Setup
i_setup n = record { pid = n; priority = low; stack_size = 512; is_i_process = true }

-- The PCB that the assignments build, with the stack at `&__end + stack_offset`.
unfoldable pub new_pcb : Program → (stack_offset : ℕ) → Setup → Pcb
unfolding init_local_stack
new_pcb program stack_offset s = record {
  pid = s.pid;
  state = ready;
  priority = s.priority;
  stack_pointer =
      (init_local_stack (program.end_of_program + stack_offset) (program.entry_of s.pid)
        s.is_i_process).1;
  stack_size = s.stack_size;
  mess_queue = m_queue_at s.pid;
  entry = program.entry_of s.pid;
}

-- The body of `init_process`; the stack offset goes from call to call. The stores into the stack
-- are those of `init_local_stack`.
unfoldable pub init_process : Program → (stack_offset : ℕ) → Setup → M ℕ
init_process program stack_offset s = do
  init_msg_queue (m_queue_at s.pid)
  update_pcb (pcb_at s.pid) (λ _. new_pcb program stack_offset s)
  if s.is_i_process then skip else enqueue_ready (pcb_at s.pid)
  pure ((stack_offset + 2 ^ 32 - s.stack_size) % 2 ^ 32)

unfoldable pub init_all : Program → (stack_offset : ℕ) → List Setup → M ℕ
init_all program stack_offset [] = pure stack_offset
init_all program stack_offset (s ∷ ss) = do
  offset ← init_process program stack_offset s
  init_all program offset ss

-- `init_tasks` gives each of the tasks 1 to 3 this priority and this stack.
abbrev pub init_tasks : List Setup
init_tasks = setup 1 medium 512 ∷ setup 2 medium 512 ∷ setup 3 medium 512 ∷ []

abbrev pub init_stress_processes : List Setup
init_stress_processes =
    setup 7 medium 512
    ∷ setup 8 medium 512
    ∷ setup 9 medium 512
    ∷ setup 10 medium 512
    ∷ setup 11 medium 512
    ∷ setup 12 medium 512
    ∷ setup 13 medium 512
    ∷ []

-- The keyboard decoder, the wall clock, the CRT, the priority setter and the null process.
abbrev pub init_s_processes : List Setup
init_s_processes =
    setup 0x21 medium 2048
    ∷ setup 0x22 high 2048
    ∷ setup 0x20 high 2048
    ∷ setup 0x23 high 2048
    ∷ setup 0 null_priority 512
    ∷ []

unfoldable pub init_i_processes : Program → (stack_offset : ℕ) → M ℕ
init_i_processes program stack_offset = do
  modify λ k. record k { in_i_process = false }
  offset ← init_process program stack_offset (i_setup timer_pid)
  init_msg_queue delayed_send_queue
  init_process program offset (i_setup uart_pid)

-- `for (i = 0; i < MAX_PROCESSES; i++) pcbs[i].pid = 100;`
unfoldable pub clear_pids : (rounds i : ℕ) → Pcbs → Pcbs
clear_pids zero i pcbs = pcbs
clear_pids (suc rounds) i pcbs =
    clear_pids rounds (suc i) (write pcbs (pcb_at i) (record (pcbs (pcb_at i)) { pid = 100 }))

abbrev pub top_of_kernel_stack : ℕ
top_of_kernel_stack = 0xb0000

abbrev pub clear_queues : Kernel → Kernel
clear_queues k = record k {
  pcbs = clear_pids max_processes 0 k.pcbs;
  ready_queue = init_meta k.ready_queue;
  memory_wait_queue = init_meta k.memory_wait_queue;
}

-- The calls of `start_scheduler` up to the first process, which is then left for.
unfoldable pub start_scheduler : Program → M (Unit {0})
start_scheduler program = do
  modify clear_queues
  offset ← init_all program top_of_kernel_stack init_tasks
  offset ← init_all program offset init_stress_processes
  offset ← init_all program offset init_s_processes
  init_i_processes program offset
  first ← dequeue_ready
  if first == null then (λ k. crashed) else (λ k. switched (leave_for first k))
