-- ===== src/Process/Kcd/Registration.antt =====
-- How a process registers a command with the keyboard decoder (`register_command` of
-- process/kcd_process.c), and the start of those that do.
use door_rtos.Base.{ℕ, Ptr, write}
use door_rtos.Kernel.Monad.{M, pure, gets, ◌>>=◌, ◌>>◌}
use door_rtos.Kernel.Process.{current, update_mess}
use door_rtos.Kernel.Swi.{send_message, request_memory_block}
use door_rtos.Process.Text.{kcd_pid, command_registration}

unfoldable pub register_command : (sp : Ptr) (command : ℕ) → M ℕ
register_command sp command = do
  p ← request_memory_block sp
  pid ← gets λ k. (current k).pid
  update_mess p λ m. record m {
    kind = command_registration;
    sender_pid = pid;
    content = write m.content 0 command;
  }
  send_message sp kcd_pid p

-- The start of the wall clock and of the process that sets priorities: they register their command
-- and request the block of `env_out_ptr`.
unfoldable pub register_and_request : (sp : Ptr) (command : ℕ) → M Ptr
register_and_request sp command = do
  register_command sp command
  env_out_ptr ← request_memory_block sp
  update_mess env_out_ptr λ m. record m { kind = 0 }
  pure env_out_ptr

unfoldable pub start_wall_clock : (sp : Ptr) → M Ptr
start_wall_clock sp = register_and_request sp 0x57

unfoldable pub start_set_prio : (sp : Ptr) → M Ptr
start_set_prio sp = register_and_request sp 0x43
