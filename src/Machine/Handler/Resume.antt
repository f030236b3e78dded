-- ===== src/Machine/Handler/Resume.antt =====
-- Where a process that has entered the kernel goes on.
use door_rtos.Base.{ℕ, ◌+◌, ◌*◌, ◌%◌, ◌^◌, ◌≤◌, ◌<◌, ◌≡◌, refl, ◌∙◌, ap, [], Ptr, write, arith}
use door_rtos.Machine.{
  Machine, push_word, push_all, pop_all, context, context_back, save_context, restore_context,
  get_sp, set_sp, disable_interrupts, return_from_exception, unlk_fp, link_fp, exception,
}
use door_rtos.Machine.Frame.{
  Holds, Holds-frame, Holds-reg, push_all-Pushed, pop_all-Popped, context-mem,
}
use door_rtos.Machine.Handler.{enter, leave}

-- The machine before its context is saved.
abbrev entered : (locals format handler : ℕ) → Machine → Machine
entered locals format handler m =
    unlk_fp (disable_interrupts (link_fp locals (exception format handler m)))

record Entered (format : ℕ) (m m' : Machine) : Type 0 where
  sp : m'.sp + 8 ≡ m.sp
  reg : (i : ℕ) → m'.reg i ≡ m.reg i
  status : m'.mem m'.sp ≡ format * 2 ^ 16 + m.sr
  return : m'.mem (m'.sp + 4) ≡ m.pc

entered-Entered :
    (locals format handler : ℕ) (m : Machine)
    → 68 ≤ m.sp
    → Entered format m (entered locals format handler m)
unfolding unlk_fp disable_interrupts link_fp exception push_word write
entered-Entered locals format handler m room = record {
  sp = ground arith;
  reg = λ i. ground arith;
  status = ground arith;
  return = ground arith;
}

-- The stack and `tmp_sp` when the body of the handler begins.
record Saved (format : ℕ) (m s : Machine) : Type 0 where
  tmp : s.tmp_sp ≡ s.sp
  sp : s.sp + 68 ≡ m.sp
  holds : Holds m.reg s.mem s.sp context_back
  status : s.mem (s.sp + 60) ≡ format * 2 ^ 16 + m.sr
  return : s.mem (s.sp + 64) ≡ m.pc

enter-Saved :
    (locals format handler : ℕ) (m : Machine)
    → 68 ≤ m.sp
    → Saved format m (enter locals format handler m)
unfolding enter save_context get_sp
enter-Saved locals format handler m room =
    let m1 = entered locals format handler m in
    let e = entered-Entered locals format handler m room in
    let p = push_all-Pushed context [] m1 tt (omega (arith, e.sp)) in
    let s = push_all context m1 in
    let at60 : s.sp + 60 ≡ m1.sp = p.sp in
    let at64 : s.sp + 64 ≡ m1.sp + 4 = omega (arith, p.sp) in
    record {
      tmp = refl;
      sp = omega (arith, p.sp, e.sp);
      holds = Holds-reg m1.reg m.reg s.mem s.sp context_back e.reg p.holds;
      status = ap s.mem at60 ∙ p.above m1.sp (omega arith) ∙ e.status;
      return = ap s.mem at64 ∙ p.above (m1.sp + 4) (omega arith) ∙ e.return;
    }

-- `m'` goes on where `m` was, with every register as it was.
pub record Resumed (m m' : Machine) : Type 0 where
  pub reg : (i : ℕ) → i < 15 → m'.reg i ≡ m.reg i
  pub sp : m'.sp ≡ m.sp
  pub pc : m'.pc ≡ m.pc
  pub sr : m'.sr ≡ m.sr

-- `m` enters the kernel, by a trap or an interrupt, which leaves its stack pointer in `tmp_sp` to be
-- stored in the PCB. Whenever `leave` then runs with `tmp_sp` set to that stack pointer, in a
-- machine whose memory still has what was pushed, `m` goes on at its next instruction with its
-- registers, its stack pointer and its status as they were.
pub leave-Resumed :
    (locals format handler : ℕ) (m m' : Machine)
    → 68 ≤ m.sp
    → m.sr < 2 ^ 16
    → m'.tmp_sp ≡ (enter locals format handler m).tmp_sp
    → ((b : Ptr) → m.sp ≤ b + 68 → b < m.sp → m'.mem b ≡ (enter locals format handler m).mem b)
    → Resumed m (leave m')
unfolding leave restore_context set_sp return_from_exception
leave-Resumed locals format handler m m' room status same_sp same =
    let s = enter locals format handler m in
    let e = enter-Saved locals format handler m room in
    let m1 = set_sp m' in
    let at : m1.sp ≡ s.sp = same_sp ∙ e.tmp in
    let kept : (b : Ptr) → s.sp ≤ b → b < s.sp + 68 → m'.mem b ≡ s.mem b =
      λ b l u. same b (omega (arith, e.sp)) (omega (arith, e.sp)) in
    let h : Holds m.reg m'.mem s.sp context_back =
      Holds-frame m.reg s.mem m'.mem s.sp context_back (λ b l u. kept b l (omega arith)) e.holds in
    let p = pop_all-Popped m.reg context_back m1 (rw at h) in
    let m2 = pop_all context_back m1 in
    let top : m2.sp ≡ s.sp + 60 = omega (arith, p.sp, at) in
    let word : m2.mem m2.sp ≡ format * 2 ^ 16 + m.sr =
      ap m2.mem top
      ∙ ap (λ f. f (s.sp + 60)) p.mem
      ∙ kept (s.sp + 60) (omega arith) (omega arith)
      ∙ e.status in
    let next : m2.sp + 4 ≡ s.sp + 64 = omega (arith, top) in
    let back : m2.mem (m2.sp + 4) ≡ m.pc =
      ap m2.mem next
      ∙ ap (λ f. f (s.sp + 64)) p.mem
      ∙ kept (s.sp + 64) (omega arith) (omega arith)
      ∙ e.return in
    record {
      reg = λ i l. p.reg_of i (context-mem i l);
      sp = omega (arith, top, e.sp);
      pc = back;
      sr = ap (λ w. w % 2 ^ 16) word ∙ low_half format m.sr status;
    }
  where
    low_half : (f r : ℕ) → r < 2 ^ 16 → (f * 2 ^ 16 + r) % 2 ^ 16 ≡ r
    low_half f r h = omega arith
