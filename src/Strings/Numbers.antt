-- ===== src/Strings/Numbers.antt =====
-- Printing numbers (`IntToStr` of kernel/string.c) and telling them from other text
-- (`IsInteger`).
use native.Mathlib.Nat.{pow-suc}
use door_rtos.Base.{
  ℕ, zero, suc, ◌+◌, ◌-◌, ◌*◌, ◌/◌, ◌^◌, ◌≤◌, ◌<◌, ◌≡◌, ◌↔◌, refl, ◌∙◌, false, ◌==◌, if◌then◌else◌,
  List, [], ◌∷◌, arith, ap, length, inl, inr, Bool-cases,
}
use door_rtos.Task.{rtx_success}
use door_rtos.Strings.{digit_loop, digit_fuel, reverse_digits, int_to_str, is_integer}

-- A decimal numeral, read from the left.
unfoldable pub value_from : ℕ → List ℕ → ℕ
value_from a [] = a
value_from a (c ∷ s) = value_from (a * 10 + (c - 0x30)) s

-- The same, with the last digit first.
value_rev : List ℕ → ℕ
value_rev [] = 0
value_rev (c ∷ s) = (c - 0x30) + 10 * value_rev s

value_from-reverse_digits :
    (s out : List ℕ) → value_from 0 (reverse_digits s out) ≡ value_from (value_rev s) out
unfolding value_from value_rev reverse_digits
value_from-reverse_digits [] out = refl
value_from-reverse_digits (c ∷ s) out =
    value_from-reverse_digits s (c ∷ out) ∙ ap (λ a. value_from a out) (omega arith)

value_rev-digit_loop : (fuel n : ℕ) → n < 10 ^ fuel → value_rev (digit_loop fuel n) ≡ n
unfolding value_rev digit_loop
value_rev-digit_loop zero n h = omega arith
value_rev-digit_loop (suc fuel) n h =
    let small : n / 10 < 10 ^ fuel = omega (arith, pow-suc 10 fuel) in
    let ih = value_rev-digit_loop fuel (n / 10) small in ground arith

-- The digits with the last one first, of zero too.
digits : ℕ → List ℕ
digits n = if n == 0 then 0x30 ∷ [] else digit_loop digit_fuel n

value_rev-digits : (n : ℕ) → n < 2 ^ 32 → value_rev (digits n) ≡ n
unfolding digits value_rev
value_rev-digits n h = elim (Bool-cases (n == 0)) [
  | inl z ↦ rw z (ground arith)
  | inr z ↦ rw z (value_rev-digit_loop digit_fuel n (omega arith))
]

abbrev pub IsDigit : ℕ → Type 0
IsDigit c = (0x30 ≤ c) × (c ≤ 0x39)

abbrev pub AllDigits : List ℕ → Type 0
AllDigits [] = Unit {0}
AllDigits (c ∷ s) = IsDigit c × AllDigits s

-- `IsInteger` succeeds exactly on strings of digits, the empty one included.
pub is_integer_iff : (s : List ℕ) → (is_integer s ≡ rtx_success) ↔ AllDigits s
unfolding is_integer
is_integer_iff [] = (λ e. tt, λ e. refl)
is_integer_iff (c ∷ s) = ground (arith, is_integer_iff s)

AllDigits-reverse_digits :
    (s out : List ℕ) → AllDigits s → AllDigits out → AllDigits (reverse_digits s out)
unfolding reverse_digits
AllDigits-reverse_digits [] out h k = k
AllDigits-reverse_digits (c ∷ s) out h k = AllDigits-reverse_digits s (c ∷ out) h.1 (h.0, k)

AllDigits-digit_loop : (fuel n : ℕ) → AllDigits (digit_loop fuel n)
unfolding digit_loop
AllDigits-digit_loop zero n = tt
AllDigits-digit_loop (suc fuel) n = ground (arith, AllDigits-digit_loop fuel (n / 10))

length-reverse_digits : (s out : List ℕ) → length (reverse_digits s out) ≡ length s + length out
unfolding reverse_digits
length-reverse_digits [] out = omega arith
length-reverse_digits (c ∷ s) out = omega (arith, length-reverse_digits s (c ∷ out))

length-digit_loop : (fuel n : ℕ) → length (digit_loop fuel n) ≤ fuel
unfolding digit_loop
length-digit_loop zero n = omega arith
length-digit_loop (suc fuel) n = ground (arith, length-digit_loop fuel (n / 10))

pos-digit_loop : (fuel n : ℕ) → (n == 0) ≡ false → 0 < length (digit_loop (suc fuel) n)
unfolding digit_loop
pos-digit_loop fuel n h = ground arith

digits-AllDigits : (n : ℕ) → AllDigits (digits n)
unfolding digits
digits-AllDigits n = elim (Bool-cases (n == 0)) [
  | inl z ↦ rw z (ground arith)
  | inr z ↦ rw z (AllDigits-digit_loop digit_fuel n)
]

length-digits : (n : ℕ) → (0 < length (digits n)) × (length (digits n) ≤ 10)
unfolding digits
length-digits n = elim (Bool-cases (n == 0)) [
  | inl z ↦ rw z (ground arith)
  | inr z ↦ rw z (pos-digit_loop 9 n z, length-digit_loop digit_fuel n)
]

-- `IntToStr` of a 32-bit number prints at least one digit and nothing else, the digits are a
-- numeral of its value, and with the NUL they fit the 20 bytes of `string_holder`.
pub int_to_str_lem :
    (n : ℕ)
    → n < 2 ^ 32
    → (value_from 0 (int_to_str n) ≡ n)
      × (is_integer (int_to_str n) ≡ rtx_success)
      × (0 < length (int_to_str n))
      × (length (int_to_str n) + 1 ≤ 20)
unfolding int_to_str digits value_from
int_to_str_lem n h = (
  value_from-reverse_digits (digits n) [] ∙ value_rev-digits n h,
  (is_integer_iff (int_to_str n)).1
      (AllDigits-reverse_digits (digits n) [] (digits-AllDigits n) tt),
  omega (arith, length-reverse_digits (digits n) [], (length-digits n).0),
  omega (arith, length-reverse_digits (digits n) [], (length-digits n).1),
)
