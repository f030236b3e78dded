-- ===== src/Machine/Frame.antt =====
-- What the stack holds after a context has been saved, and what restoring one reads.
use door_rtos.Base.{
  ℕ, suc, ◌+◌, ◌-◌, ◌*◌, ◌≤◌, ◌<◌, ◌≡◌, refl, ◌∙◌, ◌⊎◌, inl, inr, Bool-cases, ◌==◌, List, [], ◌∷◌,
  ◌++◌, length, Ptr, write_self, write_ne, mem, ◌∈◌, arith,
}
use door_rtos.Machine.{Machine, push_word, push, pop, push_all, pop_all, context_back}

-- The words from `a` up are the values of these registers.
abbrev pub Holds : (reg : ℕ → ℕ) → (Ptr → ℕ) → Ptr → List ℕ → Type 0
Holds reg mem a [] = Unit {0}
Holds reg mem a (r ∷ rs) = (mem a ≡ reg r) × Holds reg mem (a + 4) rs

pub Holds-frame :
    (reg : ℕ → ℕ) (mem mem' : Ptr → ℕ) (a : Ptr) (rs : List ℕ)
    → ((b : Ptr) → a ≤ b → b < a + 4 * length rs → mem' b ≡ mem b)
    → Holds reg mem a rs
    → Holds reg mem' a rs
Holds-frame reg mem mem' a [] same h = tt
Holds-frame reg mem mem' a (r ∷ rs) same (h, hs) = (
  same a (omega arith) (omega arith) ∙ h,
  Holds-frame reg mem mem' (a + 4) rs (λ b l u. same b (omega arith) (omega arith)) hs,
)

pub Holds-reg :
    (reg reg' : ℕ → ℕ) (mem : Ptr → ℕ) (a : Ptr) (rs : List ℕ)
    → ((i : ℕ) → reg i ≡ reg' i)
    → Holds reg mem a rs
    → Holds reg' mem a rs
Holds-reg reg reg' mem a [] same h = tt
Holds-reg reg reg' mem a (r ∷ rs) same (h, hs) =
    (h ∙ same r, Holds-reg reg reg' mem (a + 4) rs same hs)

-- The registers that are pushed end up below those that are there.
abbrev pub pushed : List ℕ → List ℕ → List ℕ
pushed [] below = below
pushed (r ∷ rs) below = pushed rs (r ∷ below)

pub record Pushed (m : Machine) (rs on : List ℕ) (m' : Machine) : Type 0 where
  pub holds : Holds m.reg m'.mem m'.sp (pushed rs on)
  pub sp : m'.sp + 4 * length rs ≡ m.sp
  pub reg : m'.reg ≡ m.reg
  pub pc : m'.pc ≡ m.pc
  pub sr : m'.sr ≡ m.sr
  pub above : (b : Ptr) → m.sp ≤ b → m'.mem b ≡ m.mem b

pub push_all-Pushed :
    (rs on : List ℕ) (m : Machine)
    → Holds m.reg m.mem m.sp on
    → 4 * length rs ≤ m.sp
    → Pushed m rs on (push_all rs m)
unfolding push_all push push_word
push_all-Pushed [] on m h room = record {
  holds = h;
  sp = omega arith;
  reg = refl;
  pc = refl;
  sr = refl;
  above = λ b l. refl;
}
push_all-Pushed (r ∷ rs) on m h room =
    let back : m.sp - 4 + 4 ≡ m.sp = omega arith in
    let m1 = push r m in
    let h1 : Holds m.reg m1.mem m.sp on =
      Holds-frame m.reg m.mem m1.mem m.sp on
        (λ b l u. write_ne m.mem (m.sp - 4) (m.reg r) b (omega arith)) h in
    let p =
      push_all-Pushed rs (r ∷ on) m1 (write_self m.mem (m.sp - 4) (m.reg r), rw back h1)
        (omega arith) in
    record {
      holds = p.holds;
      sp = omega (arith, p.sp);
      reg = p.reg;
      pc = p.pc;
      sr = p.sr;
      above = λ b l. p.above b (omega arith) ∙ write_ne m.mem (m.sp - 4) (m.reg r) b (omega arith);
    }

pub record Popped (reg : ℕ → ℕ) (m : Machine) (rs : List ℕ) (m' : Machine) : Type 0 where
  pub reg_of : (i : ℕ) → i ∈ rs → m'.reg i ≡ reg i
  pub sp : m'.sp ≡ m.sp + 4 * length rs
  pub mem : m'.mem ≡ m.mem
  pub pc : m'.pc ≡ m.pc
  pub sr : m'.sr ≡ m.sr

-- A register has its value already, or is still to be popped.
pop_all-reg :
    (reg : ℕ → ℕ) (rs : List ℕ) (m : Machine) (i : ℕ)
    → Holds reg m.mem m.sp rs
    → (m.reg i ≡ reg i) ⊎ (i ∈ rs)
    → (pop_all rs m).reg i ≡ reg i
unfolding pop_all pop
pop_all-reg reg [] m i h (inl e) = e
pop_all-reg reg [] m i h (inr e) = absurd (cc)
pop_all-reg reg (r ∷ rs) m i (h, hs) e =
    pop_all-reg reg rs (pop r m) i hs (elim (Bool-cases (i == r)) [
      | inl s ↦ let t : i ≡ r = ground arith in inl (rw t (write_self m.reg r (m.mem m.sp) ∙ h))
      | inr s ↦ elim e [
        | inl done ↦ inl (write_ne m.reg r (m.mem m.sp) i (ground arith) ∙ done)
        | inr later ↦ inr (rw s at later)
      ]
    ])

pub pop_all-Popped :
    (reg : ℕ → ℕ) (rs : List ℕ) (m : Machine)
    → Holds reg m.mem m.sp rs
    → Popped reg m rs (pop_all rs m)
unfolding pop_all pop
pop_all-Popped reg rs m h = record {
  reg_of = λ i e. pop_all-reg reg rs m i h (inr e);
  sp = sp rs m;
  mem = same rs m;
  pc = counter rs m;
  sr = status rs m;
}
  where
    sp : (rs : List ℕ) (m : Machine) → (pop_all rs m).sp ≡ m.sp + 4 * length rs
    sp [] m = omega arith
    sp (r ∷ rs) m = omega (arith, sp rs (pop r m))

    same : (rs : List ℕ) (m : Machine) → (pop_all rs m).mem ≡ m.mem
    same [] m = refl
    same (r ∷ rs) m = same rs (pop r m)

    counter : (rs : List ℕ) (m : Machine) → (pop_all rs m).pc ≡ m.pc
    counter [] m = refl
    counter (r ∷ rs) m = counter rs (pop r m)

    status : (rs : List ℕ) (m : Machine) → (pop_all rs m).sr ≡ m.sr
    status [] m = refl
    status (r ∷ rs) m = status rs (pop r m)

pub Holds-append :
    (reg : ℕ → ℕ) (mem : Ptr → ℕ) (a : Ptr) (rs ss : List ℕ)
    → Holds reg mem a (rs ++ ss)
    → Holds reg mem a rs × Holds reg mem (a + 4 * length rs) ss
Holds-append reg mem a [] ss h = let e : a + 4 * 0 ≡ a = omega arith in (tt, rw e h)
Holds-append reg mem a (r ∷ rs) ss (h, hs) =
    let (front, back) = Holds-append reg mem (a + 4) rs ss hs in
    let e : a + 4 * suc (length rs) ≡ a + 4 + 4 * length rs = omega arith in ((h, front), rw e back)

pub context-mem : (i : ℕ) → i < 15 → i ∈ context_back
context-mem i h = ground arith
