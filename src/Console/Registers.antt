-- ===== src/Console/Registers.antt =====
-- What the wrapper around trap 15 (`rtx_dbug_out_char` of kernel/stdio.c) does to the registers, and
-- what is printed for a digit.
use door_rtos.Base.{ℕ, ◌+◌, ◌≤◌, ◌<◌, ◌≡◌, ◌≢◌, refl, ◌∙◌, ap, write, arith}
use door_rtos.Strings.{int_to_str, digit_loop, reverse_digits}
use door_rtos.Machine.{Machine, d0, d1, a6, push, push_word}
use door_rtos.Console.{
  store_up, rtx_dbug_out_char, rtx_dbug_outs, rtx_dbug_number, rtx_print_integer,
}

-- The monitor prints and returns with the registers and the stack as they were.
pub record IsMonitor (monitor : Machine → Machine) : Type 0 where
  pub reg : (m : Machine) → (monitor m).reg ≡ m.reg
  pub sp : (m : Machine) → (monitor m).sp ≡ m.sp

-- The stack pointer is what it was, and so are the registers but d0 and d1, which are not restored:
-- d0 has the number of the monitor's function and d1 the character.
pub rtx_dbug_out_char-reg :
    (monitor : Machine → Machine) (m : Machine)
    → IsMonitor monitor
    → 8 ≤ m.sp
    → m.sp ≤ m.reg a6 + 8
    → let m' = rtx_dbug_out_char monitor m in
      (m'.sp ≡ m.sp)
      × (m'.reg d0 ≡ 0x13)
      × (m'.reg d1 ≡ m.mem (m.reg a6 + 8))
      × ((i : ℕ) → i ≢ d0 → i ≢ d1 → m'.reg i ≡ m.reg i)
unfolding rtx_dbug_out_char store_up push push_word write
rtx_dbug_out_char-reg monitor m is room frame = (
  ap (λ p. p + 4 + 4) (is.sp _) ∙ omega arith,
  ap (λ f. f d0) (is.reg _) ∙ refl,
  ap (λ f. f d1) (is.reg _) ∙ ground arith,
  λ i n0 n1. ap (λ f. f i) (is.reg _) ∙ ground arith,
)

-- A digit is printed as the number is.
pub rtx_dbug_number-rtx_print_integer :
    (n : ℕ) → n < 10 → (rtx_dbug_number n).1 ≡ (rtx_print_integer n).1
unfolding rtx_dbug_number rtx_print_integer rtx_dbug_outs int_to_str digit_loop reverse_digits
rtx_dbug_number-rtx_print_integer n h = ground arith
