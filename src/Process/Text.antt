-- ===== src/Process/Text.antt =====
-- The data of a message, and the types of the
-- messages between the processes (include/s_processes.h, messages.h).
pub use door_rtos.Base.{stored, text_at, write-stored}
use door_rtos.Base.{ℕ}

abbrev pub kcd_pid : ℕ
kcd_pid = 0x21

abbrev pub command_registration : ℕ
command_registration = 0x20

abbrev pub keyboard_input : ℕ
keyboard_input = 0x21

abbrev pub crt_display_request : ℕ
crt_display_request = 0x22

abbrev pub crt_display_no_prompt : ℕ
crt_display_no_prompt = 0x23
