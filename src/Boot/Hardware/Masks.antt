-- ===== src/Boot/Hardware/Masks.antt =====
-- The interrupts that the set-up lets through (init_timer and init_UART of kernel/init.c).
use door_rtos.Base.{
  ℕ, zero, suc, ◌/◌, ◌%◌, ◌<◌, ◌≡◌, ◌≢◌, refl, ◌∙◌, ap, Bool, true, Bool-cases, inl, inr, ◌&&◌,
  ◌||◌, ◌==◌, if◌then◌else◌, write, arith,
}
use door_rtos.Boot.Hardware.{
  Hardware, Handlers, store, sim_imr, trap_vector, timer_vector, uart_vector, bit_and, unmask,
  timer_clear, uart_clear, init_timer, reset_uart, init_uart, init_hardware,
}

-- A bit of a number.
unfoldable pub bit : (i n : ℕ) → ℕ
bit zero n = n % 2
bit (suc i) n = bit i (n / 2)

bit-bit_and :
    (i bits a b : ℕ)
    → i < bits
    → bit i (bit_and bits a b) ≡ (if (bit i a == 1) && (bit i b == 1) then 1 else 0)
unfolding bit bit_and
bit-bit_and i zero a b h = absurd (omega arith)
bit-bit_and zero (suc bits) a b h = ground arith
bit-bit_and (suc i) (suc bits) a b h =
    let half : bit_and (suc bits) a b / 2 ≡ bit_and bits (a / 2) (b / 2) = ground arith in
    ap (bit i) half ∙ bit-bit_and i bits (a / 2) (b / 2) (omega arith)

bit-lt : (i n : ℕ) → bit i n < 2
unfolding bit
bit-lt zero n = omega arith
bit-lt (suc i) n = bit-lt i (n / 2)

-- A test of all numbers below a bound.
all_below : ℕ → (ℕ → Bool) → Bool
all_below zero p = true
all_below (suc n) p = p n && all_below n p

all_below-at : (n : ℕ) (p : ℕ → Bool) (i : ℕ) → all_below n p ≡ true → i < n → p i ≡ true
unfolding all_below
all_below-at zero p i e h = absurd (omega arith)
all_below-at (suc n) p i e h = elim (Bool-cases (i == n)) [
  | inl s ↦ let t : i ≡ n = ground arith in rw t (and-fst (p n) (all_below n p) e)
  | inr s ↦ all_below-at n p i (and-snd (p n) (all_below n p) e) (ground arith)
]
  where
    and-fst : (a b : Bool) → a && b ≡ true → a ≡ true
    and-fst a b e = ground arith

    and-snd : (a b : Bool) → a && b ≡ true → b ≡ true
    and-snd a b e = ground arith

-- The masks have every bit below 18 but one.
abbrev has_bits : (but n : ℕ) → ℕ → Bool
has_bits but n i = (i == but) || (bit i n == 1)

has_bits-bit : (but n i : ℕ) → all_below 18 (has_bits but n) ≡ true → i < 18 → i ≢ but → bit i n ≡ 1
has_bits-bit but n i e h ne = let at = all_below-at 18 (has_bits but n) i e h in ground (arith, at)

timer_bits : (i : ℕ) → i < 18 → i ≢ 9 → bit i timer_clear ≡ 1
unfolding bit all_below
timer_bits i h ne = has_bits-bit 9 timer_clear i refl h ne

uart_bits : (i : ℕ) → i < 18 → i ≢ 13 → bit i uart_clear ≡ 1
unfolding bit all_below
uart_bits i h ne = has_bits-bit 13 uart_clear i refl h ne

timer_let : bit 9 timer_clear ≡ 0
unfolding bit
timer_let = refl

uart_let : bit 13 uart_clear ≡ 0
unfolding bit
uart_let = refl

-- The mask after both.
abbrev unmasked : ℕ → ℕ
unmasked n = bit_and 32 (bit_and 32 n timer_clear) uart_clear

unmasked-9 : (n : ℕ) → bit 9 (unmasked n) ≡ 0
unmasked-9 n =
    let a = bit-bit_and 9 32 (bit_and 32 n timer_clear) uart_clear (omega arith) in
    let b = bit-bit_and 9 32 n timer_clear (omega arith) in ground (arith, a, b, timer_let)

unmasked-13 : (n : ℕ) → bit 13 (unmasked n) ≡ 0
unmasked-13 n =
    let a = bit-bit_and 13 32 (bit_and 32 n timer_clear) uart_clear (omega arith) in
    ground (arith, a, uart_let)

unmasked-bit : (i n : ℕ) → i < 18 → i ≢ 9 → i ≢ 13 → bit i (unmasked n) ≡ bit i n
unmasked-bit i n h ne ne' =
    let a = bit-bit_and i 32 (bit_and 32 n timer_clear) uart_clear (omega arith) in
    let b = bit-bit_and i 32 n timer_clear (omega arith) in
    let t = timer_bits i h ne in
    let u = uart_bits i h ne' in let l = bit-lt i n in ground (arith, a, b, t, u, l)

-- The set-up as it is meant: the vectors lead to the handlers of the trap, the timer and the serial
-- port, the processor is not to be interrupted yet, and of the lower 18 bits of the mask of interrupts
-- those of the timer (9) and the serial port (13) are clear and the others as they were.
pub record Prepared (f : Handlers) (h h' : Hardware) : Type 0 where
  pub trap_is : h'.mem trap_vector ≡ f.swi_trap_handler
  pub timer_is : h'.mem timer_vector ≡ f.timer_handler
  pub uart_is : h'.mem uart_vector ≡ f.uart_handler
  pub disabled : h'.sr ≡ 0x2700
  pub timer_open : bit 9 (h'.mem sim_imr) ≡ 0
  pub uart_open : bit 13 (h'.mem sim_imr) ≡ 0
  pub others : (i : ℕ) → i < 18 → i ≢ 9 → i ≢ 13 → bit i (h'.mem sim_imr) ≡ bit i (h.mem sim_imr)

-- After `init_hardware` the vectors lead to the handlers, the processor's interrupts are disabled,
-- and in the mask of interrupts the bits of the timer and the serial port are clear and the other
-- ones below bit 18 as they were.
pub init_hardware-Prepared : (f : Handlers) (h : Hardware) → Prepared f h (init_hardware f h)
unfolding init_hardware init_uart init_timer reset_uart unmask store write
init_hardware-Prepared f h = record {
  trap_is = refl;
  timer_is = refl;
  uart_is = refl;
  disabled = refl;
  timer_open = unmasked-9 (h.mem sim_imr);
  uart_open = unmasked-13 (h.mem sim_imr);
  others = λ i l ne ne'. unmasked-bit i (h.mem sim_imr) l ne ne';
}
