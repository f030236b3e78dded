-- ===== src/Examples/Hardware.antt =====
-- The devices before their set-up, with all interrupts masked.
use door_rtos.Base.{[]}
use door_rtos.Boot.Hardware.{Hardware, Handlers, init_hardware}
use door_rtos.Boot.Hardware.Masks.{Prepared, init_hardware-Prepared}

abbrev after_reset : Hardware
after_reset = record { mem = λ a. 0x3ffff; stores = []; sr = 0x2700 }

abbrev handlers : Handlers
handlers = record { swi_trap_handler = 0x1000; timer_handler = 0x1100; uart_handler = 0x1200 }

init_hardware-Prepared_example : Prepared handlers after_reset (init_hardware handlers after_reset)
init_hardware-Prepared_example = init_hardware-Prepared handlers after_reset
