-- ===== src/Kernel/Interrupts.antt =====
-- The interrupt handlers of kernel/timer_handler.c and kernel/uart_handler.c. `sp` is the stack
-- pointer of the interrupted process. The write that acknowledges the timer is left out.
pub mod Scheduled
use door_rtos.Base.{ℕ, true, Ptr}
use door_rtos.Task.{pcb_at}
use door_rtos.Kernel.Monad.{M, gets, modify, ◌>>=◌, ◌>>◌}
use door_rtos.Kernel.Queues.{enqueue_ready}
use door_rtos.Kernel.Process.{update_pcb, set_stack_pointer, context_switch}

-- `TIMER_PID` and `UART_PID` of include/rtx_door.h.
abbrev pub timer_pid : ℕ
timer_pid = 0x30

abbrev pub uart_pid : ℕ
uart_pid = 0x31

-- The interrupted process goes back to the ready queue, its state as it was.
unfoldable pub timer_handler : (sp : Ptr) → M (Unit {0})
timer_handler sp = do
  modify λ k. record k { tmp_sp = sp }
  k ← gets λ k. k
  update_pcb k.current_pcb (set_stack_pointer sp)
  modify λ k. record k { in_i_process = true }
  enqueue_ready k.current_pcb
  context_switch (pcb_at timer_pid)

unfoldable pub uart_handler : (sp : Ptr) → M (Unit {0})
uart_handler sp = do
  modify λ k. record k { tmp_sp = sp }
  k ← gets λ k. k
  update_pcb k.current_pcb (set_stack_pointer sp)
  modify λ k. record k { in_i_process = true }
  enqueue_ready k.current_pcb
  context_switch (pcb_at uart_pid)
