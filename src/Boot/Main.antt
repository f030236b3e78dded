-- ===== src/Boot/Main.antt =====
-- `main` of kernel/rtos.c. `init_hardware` sets the trap vector and the registers of the timer and
-- of the serial port, which are no part of the kernel's globals, and `init_tasks` is a table here
-- (Boot/Scheduler.antt).
use door_rtos.Base.{Ptr}
use door_rtos.Kernel.Monad.{M, ◌>>◌}
use door_rtos.Boot.{init_free_memory}
use door_rtos.Boot.Scheduler.{Program, start_scheduler}

unfoldable pub main : (end_of_program : Ptr) → Program → M (Unit {0})
main end_of_program program = init_free_memory end_of_program >> start_scheduler program
