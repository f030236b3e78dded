-- ===== src/Boot/Hardware.antt =====
-- The set-up of the processor's devices (init_hardware, init_timer and init_UART of kernel/init.c,
-- with the registers of include/rtx_inc.h and the vectors of arch/m68k-coldfire5307/arch.h).
pub mod Masks
use door_rtos.Base.{
  ℕ, zero, suc, ◌+◌, ◌*◌, ◌/◌, ◌%◌, ◌^◌, ◌&&◌, ◌==◌, if◌then◌else◌, List, [], ◌∷◌, Ptr, write,
}

-- What was stored last at an address, and all the stores, the newest first: a store to a register
-- is a command to the device.
pub record Hardware : Type 0 where
  pub mem : Ptr → ℕ
  pub stores : List (Ptr × ℕ)
  pub sr : ℕ

-- Where the linker puts the handlers.
pub record Handlers : Type 0 where
  pub swi_trap_handler : ℕ
  pub timer_handler : ℕ
  pub uart_handler : ℕ

unfoldable pub store : (a : Ptr) (v : ℕ) → Hardware → Hardware
store a v h = record h { mem = write h.mem a v; stores = (a, v) ∷ h.stores }

abbrev pub mbar : ℕ
mbar = 0xf0000000

abbrev pub sim_imr : Ptr
sim_imr = mbar + 0x44

abbrev pub trap_vector : Ptr
trap_vector = 0x10000080

abbrev pub timer_vector : Ptr
timer_vector = 0x10000078

abbrev pub uart_vector : Ptr
uart_vector = 0x10000100

-- `a & b` of so many bits.
unfoldable pub bit_and : (bits a b : ℕ) → ℕ
bit_and zero a b = 0
bit_and (suc bits) a b =
    (if (a % 2 == 1) && (b % 2 == 1) then 1 else 0) + 2 * bit_and bits (a / 2) (b / 2)

-- `mask = SIM_IMR; mask &= clear; SIM_IMR = mask;`
unfoldable pub unmask : (clear : ℕ) → Hardware → Hardware
unmask clear h = store sim_imr (bit_and 32 (h.mem sim_imr) clear) h

abbrev pub timer_clear : ℕ
timer_clear = 0x3fdff

abbrev pub uart_clear : ℕ
uart_clear = 0x3dfff

-- TIMER0_ICR, TIMER0_TRR and TIMER0_TMR, behind the vector.
unfoldable pub init_timer : Handlers → Hardware → Hardware
init_timer f h = unmask timer_clear (
    store (mbar + 0x140) 0xff1b
      (store (mbar + 0x144) 1758 (store (mbar + 0x4d) 0x9b (store timer_vector f.timer_handler h))))

-- SERIAL1_UCR, as the commands to reset the device.
unfoldable pub reset_uart : Hardware → Hardware
reset_uart h =
    store (mbar + 0x208) 0x40
      (store (mbar + 0x208) 0x30 (store (mbar + 0x208) 0x20 (store (mbar + 0x208) 0x10 h)))

-- Behind these, SERIAL1_ICR, SERIAL1_IVR, SERIAL1_IMR and SERIAL1_UCR.
unfoldable pub init_uart : Handlers → Hardware → Hardware
init_uart f h = unmask uart_clear (
    store (mbar + 0x208) 5 (
      store (mbar + 0x214) 2 (
        store (mbar + 0x230) 64
          (store (mbar + 0x51) 0x17 (reset_uart (store uart_vector f.uart_handler h))))))

unfoldable pub init_hardware : Handlers → Hardware → Hardware
init_hardware f h =
    init_uart f (init_timer f (store trap_vector f.swi_trap_handler (record h { sr = 0x2700 })))
