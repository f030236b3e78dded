-- ===== src/Machine/Handler/Start.antt =====
-- How a process starts: what `init_local_stack` (kernel/init.c) has stored is what the end of
-- `context_switch` reads.
use door_rtos.Base.{
  ℕ, ◌+◌, ◌-◌, ◌%◌, ◌^◌, ◌≤◌, ◌<◌, ◌≡◌, refl, sym, ◌∙◌, ap, Bool, true, false, List, [], ◌∷◌, ◌++◌,
  map, Ptr, write, ltb, if◌then◌else◌, arith,
}
use door_rtos.Boot.Stack.{store_words, frame_word, init_local_stack}
use door_rtos.Machine.{
  Machine, push_word, push, push_all, pop_all, context_back, restore_context, set_sp,
  return_from_exception,
}
use door_rtos.Machine.Frame.{
  Holds, Holds-frame, Holds-append, push_all-Pushed, pop_all-Popped, context-mem,
}
use door_rtos.Machine.Handler.{leave}

-- The memory after these stores, the first one first.
abbrev pub stores : List (Ptr × ℕ) → (Ptr → ℕ) → Ptr → ℕ
stores [] mem = mem
stores ((a, w) ∷ r) mem = stores r (write mem a w)

-- Storing words from `sp - 4` down is pushing them.
stores-push_all :
    (rs : List ℕ) (m : Machine)
    → stores (store_words (m.sp - 4) (map m.reg rs)) m.mem ≡ (push_all rs m).mem
unfolding store_words push_all push push_word
stores-push_all [] m = refl
stores-push_all (r ∷ rs) m = stores-push_all rs (push r m)

-- A process's first registers, and as 15 and 16 the other words of its stack.
abbrev first_registers : (proc_entry : ℕ) (is_i_process : Bool) → ℕ → ℕ
first_registers entry b r =
    if ltb r 8
    then 0xd0 + r
    else if ltb r 15
    then 0xa0 + (r - 8)
    else if ltb r 16
    then frame_word b
    else entry

-- The words from the first stored one on.
abbrev order : List ℕ
order = 16 ∷ 15 ∷ 0 ∷ 1 ∷ 2 ∷ 3 ∷ 4 ∷ 5 ∷ 6 ∷ 7 ∷ 8 ∷ 9 ∷ 10 ∷ 11 ∷ 12 ∷ 13 ∷ 14 ∷ []

abbrev fresh : (top entry : ℕ) → Bool → (Ptr → ℕ) → Machine
fresh top entry b mem = record {
  reg = first_registers entry b;
  sp = top + 4;
  pc = 0;
  sr = 0;
  mem = mem;
  tmp_sp = 0;
}

local-Holds :
    (top entry : ℕ) (b : Bool) (mem : Ptr → ℕ)
    → 64 ≤ top
    → Holds
        (first_registers entry b)
        (stores (init_local_stack top entry b).0 mem)
        (top - 64)
        (context_back ++ 15 ∷ 16 ∷ [])
unfolding init_local_stack
local-Holds top entry b mem room =
    let m = fresh top entry b mem in
    let p = push_all-Pushed order [] m tt (omega arith) in
    let e : top + 4 - 4 ≡ top = omega arith in
    let at : (push_all order m).sp ≡ top - 64 = omega (arith, p.sp) in
    let same : stores (store_words top (map (first_registers entry b) order)) mem
        ≡ (push_all order m).mem =
      ap (λ a. stores (store_words a (map (first_registers entry b) order)) mem) (sym e)
      ∙ stores-push_all order m in
    rw same (rw at at p.holds)

-- A process is at its entry, with the registers that its stack gives it.
pub record Started (top entry : ℕ) (b : Bool) (m' : Machine) : Type 0 where
  pub pc : m'.pc ≡ entry
  pub sr : m'.sr ≡ (if b then 0x2700 else 0)
  pub sp : m'.sp ≡ top + 4
  pub data_reg : (i : ℕ) → i < 8 → m'.reg i ≡ 0xd0 + i
  pub address_reg : (i : ℕ) → i < 7 → m'.reg (8 + i) ≡ 0xa0 + i

first-data : (entry i : ℕ) (b : Bool) → i < 8 → first_registers entry b i ≡ 0xd0 + i
first-data entry i b h = ground arith

first-address : (entry i : ℕ) (b : Bool) → i < 7 → first_registers entry b (8 + i) ≡ 0xa0 + i
first-address entry i b h = ground arith

frame_word_half : (b : Bool) → frame_word b % 2 ^ 16 ≡ (if b then 0x2700 else 0)
frame_word_half true = refl
frame_word_half false = refl

-- When `tmp_sp` is the stack pointer that `init_local_stack` has returned and memory still has what
-- it stored, `leave` starts the process: at its entry, with interrupts masked and in supervisor
-- mode for an i-process and in user mode for another one, with the registers d0 to d7 and a0 to a6
-- holding 0xd0 to 0xd7 and 0xa0 to 0xa6, and the stack above what was stored.
pub leave-Started :
    (top entry : ℕ) (b : Bool) (mem : Ptr → ℕ) (m : Machine)
    → 64 ≤ top
    → m.tmp_sp ≡ (init_local_stack top entry b).1
    → ((a : Ptr)
        → top ≤ a + 64
        → a < top + 4
        → m.mem a ≡ stores (init_local_stack top entry b).0 mem a)
    → Started top entry b (leave m)
unfolding leave restore_context set_sp return_from_exception init_local_stack
leave-Started top entry b mem m room tmp same =
    let reg = first_registers entry b in
    let stored = stores (init_local_stack top entry b).0 mem in
    let all =
      Holds-frame reg stored m.mem (top - 64) (context_back ++ 15 ∷ 16 ∷ [])
        (λ a l u. same a (omega arith) (omega arith)) (local-Holds top entry b mem room) in
    let (regs, words) = Holds-append reg m.mem (top - 64) context_back (15 ∷ 16 ∷ []) all in
    let m1 = set_sp m in
    let p = pop_all-Popped reg context_back m1 (rw tmp regs) in
    let m2 = pop_all context_back m1 in
    let at : m2.sp ≡ top - 64 + 60 = omega (arith, p.sp, tmp) in
    let next : m2.sp + 4 ≡ top - 64 + 60 + 4 = omega (arith, at) in
    record {
      pc = ap m2.mem next ∙ ap (λ f. f (top - 64 + 60 + 4)) p.mem ∙ words.1.0;
      sr =
          ap (λ w. w % 2 ^ 16) (ap m2.mem at ∙ ap (λ f. f (top - 64 + 60)) p.mem ∙ words.0)
          ∙ frame_word_half b;
      sp = omega (arith, at);
      data_reg = λ i h. p.reg_of i (context-mem i (omega arith)) ∙ first-data entry i b h;
      address_reg =
          λ i h. p.reg_of (8 + i) (context-mem (8 + i) (omega arith)) ∙ first-address entry i b h;
    }
