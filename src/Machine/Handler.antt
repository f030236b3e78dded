-- ===== src/Machine/Handler.antt =====
-- The way into the kernel and out of it: the code in front of and behind the body of
-- `swi_trap_handler` (kernel/swi.c), `timer_handler` and `uart_handler`, and the end of
-- `context_switch` (kernel/primitives.c) and of `start_scheduler` (kernel/init.c).
pub mod Resume
pub mod Start
use door_rtos.Base.{ℕ}
use door_rtos.Machine.{
  Machine, save_context, restore_context, get_sp, set_sp, disable_interrupts, return_from_exception,
  unlk_fp, link_fp, exception,
}

-- From the interrupted code, or the trap, up to the body of the handler.
unfoldable pub enter : (locals format handler : ℕ) → Machine → Machine
enter locals format handler m =
    get_sp
      (save_context (unlk_fp (disable_interrupts (link_fp locals (exception format handler m)))))

unfoldable pub leave : Machine → Machine
leave m = return_from_exception (restore_context (set_sp m))
