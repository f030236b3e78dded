-- ===== src/Console.antt =====
-- Output to the debug port (kernel/stdio.c). The monitor behind trap 15 is a parameter; what is
-- printed is the list of the characters that are passed to it.
pub mod Registers
use door_rtos.Base.{
  ℕ, zero, suc, ◌+◌, ◌%◌, ◌^◌, ◌==◌, if◌then◌else◌, List, [], ◌∷◌, Option, none, some, write,
}
use door_rtos.Task.{rtx_success, rtx_error}
use door_rtos.Strings.{int_to_str}
use door_rtos.Machine.{Machine, d0, d1, a6, push}

-- `move.l %r, (%a7)+`
unfoldable pub store_up : (r : ℕ) → Machine → Machine
store_up r m = record m { mem = write m.mem m.sp (m.reg r); sp = m.sp + 4 }

-- `c` is the word at 8(%a6).
unfoldable pub rtx_dbug_out_char : (monitor : Machine → Machine) → Machine → Machine
rtx_dbug_out_char monitor m =
    let saved = push d1 (push d0 m) in
    let loaded = record saved { reg = write saved.reg d1 (saved.mem (saved.reg a6 + 8)) } in
    let called = monitor (record loaded { reg = write loaded.reg d0 0x13 }) in
    store_up d0 (store_up d1 called)

-- The result, and the characters of a text up to its NUL. `none` is NULL.
unfoldable pub rtx_dbug_outs : Option (List ℕ) → ℕ × List ℕ
rtx_dbug_outs none = (rtx_error, [])
rtx_dbug_outs (some s) = (rtx_success, s)

-- `number + 0x30` as a character, which can be a NUL.
unfoldable pub rtx_dbug_number : (number : ℕ) → ℕ × List ℕ
rtx_dbug_number number =
    let c = (number + 0x30) % 2 ^ 8 in rtx_dbug_outs (some (if c == 0 then [] else c ∷ []))

unfoldable pub rtx_print_integer : (integer : ℕ) → ℕ × List ℕ
rtx_print_integer integer = (0, (rtx_dbug_outs (some (int_to_str integer))).1)
