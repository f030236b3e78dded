-- ===== src/Machine.antt =====
-- The processor's registers and stack in the kernel (arch/m68k-coldfire5307/arch.h): the macros
-- that save and restore a process's context, as the instructions that they stand for. A register
-- has the number 0 to 7 (d0 to d7) or 8 to 14 (a0 to a6); a7 is the stack pointer. Memory is a map
-- from the addresses of 32-bit words.
pub mod Frame
pub mod Handler
use door_rtos.Base.{ℕ, zero, suc, ◌+◌, ◌-◌, ◌*◌, ◌%◌, ◌^◌, List, [], ◌∷◌, Ptr, write}

pub record Machine : Type 0 where
  pub reg : ℕ → ℕ
  pub sp : Ptr
  pub pc : ℕ
  pub sr : ℕ
  pub mem : Ptr → ℕ
  -- The kernel's variable of this name.
  pub tmp_sp : Ptr

abbrev pub d0 : ℕ
d0 = 0

abbrev pub d1 : ℕ
d1 = 1

abbrev pub a6 : ℕ
a6 = 14

-- `move.l w, -(%sp)`
unfoldable pub push_word : (w : ℕ) → Machine → Machine
push_word w m = record m { sp = m.sp - 4; mem = write m.mem (m.sp - 4) w }

-- `move.l %r, -(%sp)`
unfoldable pub push : (r : ℕ) → Machine → Machine
unfolding push_word
push r m = push_word (m.reg r) m

-- `move.l (%sp)+, %r`
unfoldable pub pop : (r : ℕ) → Machine → Machine
pop r m = record m { reg = write m.reg r (m.mem m.sp); sp = m.sp + 4 }

unfoldable pub push_all : List ℕ → Machine → Machine
push_all [] m = m
push_all (r ∷ rs) m = push_all rs (push r m)

unfoldable pub pop_all : List ℕ → Machine → Machine
pop_all [] m = m
pop_all (r ∷ rs) m = pop_all rs (pop r m)

-- d0 to d7 and a0 to a6, and the same from the last to the first.
abbrev pub context : List ℕ
context = 0 ∷ 1 ∷ 2 ∷ 3 ∷ 4 ∷ 5 ∷ 6 ∷ 7 ∷ 8 ∷ 9 ∷ 10 ∷ 11 ∷ 12 ∷ 13 ∷ 14 ∷ []

abbrev pub context_back : List ℕ
context_back = 14 ∷ 13 ∷ 12 ∷ 11 ∷ 10 ∷ 9 ∷ 8 ∷ 7 ∷ 6 ∷ 5 ∷ 4 ∷ 3 ∷ 2 ∷ 1 ∷ 0 ∷ []

unfoldable pub save_context : Machine → Machine
save_context m = push_all context m

unfoldable pub restore_context : Machine → Machine
restore_context m = pop_all context_back m

unfoldable pub get_sp : Machine → Machine
get_sp m = record m { tmp_sp = m.sp }

unfoldable pub set_sp : Machine → Machine
set_sp m = record m { sp = m.tmp_sp }

-- `move.w #0x2700,%sr`
unfoldable pub disable_interrupts : Machine → Machine
disable_interrupts m = record m { sr = 0x2700 }

-- `move.w #0x2000,%sr`
unfoldable enable_interrupts : Machine → Machine
enable_interrupts m = record m { sr = 0x2000 }

-- All but the last pop of `restore_context`.
unfoldable restore_context_except_d0 : Machine → Machine
restore_context_except_d0 m =
    pop_all (14 ∷ 13 ∷ 12 ∷ 11 ∷ 10 ∷ 9 ∷ 8 ∷ 7 ∷ 6 ∷ 5 ∷ 4 ∷ 3 ∷ 2 ∷ 1 ∷ []) m

-- `rte`: the word on top has the status register in its lower half, the next one is the address.
unfoldable pub return_from_exception : Machine → Machine
return_from_exception m = record m {
  sr = m.mem m.sp % 2 ^ 16;
  pc = m.mem (m.sp + 4);
  sp = m.sp + 8;
}

-- `unlk %a6`, and the `link %a6` with so many bytes of locals that the compiler puts in front of a
-- function.
unfoldable pub unlk_fp : Machine → Machine
unlk_fp m = record m { sp = m.reg a6 + 4; reg = write m.reg a6 (m.mem (m.reg a6)) }

unfoldable pub link_fp : (locals : ℕ) → Machine → Machine
link_fp locals m = record m {
  mem = write m.mem (m.sp - 4) (m.reg a6);
  reg = write m.reg a6 (m.sp - 4);
  sp = m.sp - 4 - locals;
}

-- An exception: the address to return to, and below it the format and vector with the status
-- register.
unfoldable pub exception : (format handler : ℕ) → Machine → Machine
unfolding push_word
exception format handler m = record (push_word (format * 2 ^ 16 + m.sr) (push_word m.pc m)) {
  pc = handler;
}
