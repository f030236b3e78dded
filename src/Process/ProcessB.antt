-- ===== src/Process/ProcessB.antt =====
-- The test processes that pass messages on (process/process_b1.c, process_b2.c), in the monad of the
-- kernel.
pub mod Relay
use door_rtos.Base.{ℕ, zero, suc, Ptr, null}
use door_rtos.Kernel.Monad.{M, skip, ◌>>=◌, ◌>>◌}
use door_rtos.Kernel.Swi.{send_message, receive_message}
use door_rtos.Process.Uart.{receive_fuel}

-- A round of the loop of a process that passes messages on to the process `dest_pid`.
unfoldable pub pass_on : (sp : Ptr) (dest_pid : ℕ) → M ℕ
pass_on sp dest_pid = do
  mymess ← receive_message receive_fuel sp null
  send_message sp dest_pid mymess

unfoldable pub process_b1_round : (sp : Ptr) → M ℕ
process_b1_round sp = pass_on sp 9

unfoldable pub process_b2_round : (sp : Ptr) → M ℕ
process_b2_round sp = pass_on sp 12

-- So many rounds.
unfoldable pub pass_all : ℕ → (sp : Ptr) (dest_pid : ℕ) → M (Unit {0})
pass_all zero sp dest_pid = skip
pass_all (suc n) sp dest_pid = do pass_on sp dest_pid; pass_all n sp dest_pid
