-- ===== src/Kernel/Swi.antt =====
-- The trap interface of kernel/swi.c: the handler of trap 0, and the calls that processes make.
-- A call stores its arguments in globals and traps; `sp` is the stack pointer at the trap.
-- `done` is the return to the calling process, `switched` that another process runs instead.
use door_rtos.Base.{ℕ, zero, suc, ◌%◌, ◌^◌, ◌==◌, if◌then◌else◌, Ptr, null}
use door_rtos.Kernel.Monad.{Swi, stuck, M, pure, gets, modify, skip, set_swi, ◌>>=◌, ◌>>◌}
use door_rtos.Kernel.Process.{process_switch}
use door_rtos.Kernel.Primitives.{
  kernel_send_message, kernel_receive_message, kernel_request_memory_block,
  kernel_release_memory_block,
}
use door_rtos.Kernel.Delayed.{kernel_delayed_send}
use door_rtos.Kernel.Priority.{kernel_set_process_priority, kernel_get_process_priority}

-- The numbers of the calls (arch/m68k-coldfire5307/arch.h).
pub data Call : Type 0 where
  send_message_call : Call
  receive_message_call : Call
  request_memory_call : Call
  release_memory_call : Call
  release_processor_call : Call
  delayed_send_call : Call
  set_prio_call : Call
  get_prio_call : Call
  other_call : Call

abbrev pub call_of : ℕ → Call
call_of n =
    if n == 1
    then send_message_call
    else if n == 2
    then receive_message_call
    else if n == 3
    then request_memory_call
    else if n == 4
    then release_memory_call
    else if n == 5
    then release_processor_call
    else if n == 6
    then delayed_send_call
    else if n == 7
    then set_prio_call
    else if n == 8
    then get_prio_call
    else other_call

abbrev set_ret_code : ℕ → M (Unit {0})
set_ret_code n = set_swi λ s. record s { ret_code = n }

-- The branches of `switch (kernel_code)`. `kernel_set_process_priority` takes a `UINT8`.
unfoldable pub dispatch : Call → Swi → M (Unit {0})
dispatch send_message_call s = kernel_send_message s.param_1 s.param_2 >>= set_ret_code
dispatch receive_message_call s = kernel_receive_message >> skip
dispatch request_memory_call s = kernel_request_memory_block >>= set_ret_code
dispatch release_memory_call s = kernel_release_memory_block s.param_1 >>= set_ret_code
dispatch release_processor_call s = process_switch
dispatch delayed_send_call s = kernel_delayed_send s.param_1 s.param_2 s.param_3 >>= set_ret_code
dispatch set_prio_call s =
    kernel_set_process_priority s.param_1 (s.param_2 % 2 ^ 8) >>= set_ret_code
dispatch get_prio_call s = kernel_get_process_priority s.param_1 >> skip
dispatch other_call s = skip

unfoldable pub swi_trap_handler : (sp : Ptr) → M (Unit {0})
swi_trap_handler sp = do
  modify λ k. record k { tmp_sp = sp }
  s ← gets λ k. k.swi
  dispatch (call_of s.kernel_code) s

unfoldable pub release_processor : (sp : Ptr) → M ℕ
release_processor sp = do set_swi λ s. record s { kernel_code = 5 }; swi_trap_handler sp; pure 0

unfoldable pub send_message : (sp : Ptr) → (process_id : ℕ) (envelope : Ptr) → M ℕ
send_message sp process_id envelope = do
  set_swi λ s. record s { kernel_code = 1; param_1 = process_id; param_2 = envelope }
  swi_trap_handler sp
  gets λ k. k.swi.ret_code

-- `while (!msg_return) { kernel_code = RECEIVE_MESSAGE; TRAP0 (); }`
unfoldable pub receive_loop : ℕ → (sp : Ptr) → M Ptr
receive_loop zero sp = λ k. stuck
receive_loop (suc fuel) sp = do
  s ← gets λ k. k.swi
  if s.msg_return == 0
      then (do set_swi λ s. record s { kernel_code = 2 }; swi_trap_handler sp; receive_loop fuel sp)
      else pure s.ret_code_recv

-- The argument, the address for the sender's pid, is stored and not used.
unfoldable pub receive_message : ℕ → (sp sender_id : Ptr) → M Ptr
receive_message fuel sp sender_id = do
  set_swi λ s. record s { msg_return = 0; ret_code_recv = null; param_1 = sender_id }
  receive_loop fuel sp

unfoldable pub request_memory_block : (sp : Ptr) → M Ptr
request_memory_block sp = do
  set_swi λ s. record s { kernel_code = 3 }
  swi_trap_handler sp
  gets λ k. k.swi.ret_code

unfoldable pub release_memory_block : (sp memory_block : Ptr) → M ℕ
release_memory_block sp memory_block = do
  set_swi λ s. record s { kernel_code = 4; param_1 = memory_block }
  swi_trap_handler sp
  gets λ k. k.swi.ret_code

unfoldable pub delayed_send : (sp : Ptr) (process_id : ℕ) (envelope : Ptr) (delay : ℕ) → M ℕ
delayed_send sp process_id envelope delay = do
  set_swi
      λ s. record s { kernel_code = 6; param_1 = process_id; param_2 = envelope; param_3 = delay }
  swi_trap_handler sp
  gets λ k. k.swi.ret_code

-- The result is taken from `ret_code_get_prio`.
unfoldable pub set_process_priority : (sp : Ptr) (process_id priority : ℕ) → M ℕ
set_process_priority sp process_id priority = do
  set_swi λ s. record s { kernel_code = 7; param_1 = process_id; param_2 = priority }
  swi_trap_handler sp
  gets λ k. k.swi.ret_code_get_prio

unfoldable pub get_process_priority : (sp : Ptr) (process_id : ℕ) → M ℕ
get_process_priority sp process_id = do
  set_swi λ s. record s { kernel_code = 8; param_1 = process_id }
  swi_trap_handler sp
  gets λ k. k.swi.ret_code_get_prio
