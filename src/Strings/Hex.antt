-- ===== src/Strings/Hex.antt =====
-- `IntToHex` of kernel/string.c: hexadecimal numerals.
use mathlib.Core.List.{reverse-append}
use native.Mathlib.Nat.{pow-suc}
use door_rtos.Base.{
  ℕ, zero, suc, ◌+◌, ◌-◌, ◌*◌, ◌/◌, ◌%◌, ◌^◌, ◌<◌, ◌≤◌, ◌⊎◌, false, ◌≡◌, ◌≢◌, refl, ◌∙◌, ap,
  Bool-cases, inl, inr, ◌==◌, ltb, leb, if◌then◌else◌, List, [], ◌∷◌, ◌++◌, reverse, ok, All, arith,
}
use door_rtos.Strings.Literals.{hex_digit, hex_loop, hex_fuel, magnitude, hex_text, int_to_hex}
use door_rtos.Strings.Turned.{reverse_str-reverse}

-- What a hexadecimal digit stands for.
abbrev pub hex_value : ℕ → ℕ
hex_value c = if ltb c 0x3a then c - 0x30 else c - 0x37

-- A hexadecimal numeral with the last digit first.
unfoldable pub hex_rev : List ℕ → ℕ
hex_rev [] = 0
hex_rev (c ∷ s) = hex_value c + 16 * hex_rev s

hex_rev-hex_loop : (fuel n : ℕ) → n < 16 ^ fuel → hex_rev (hex_loop fuel n) ≡ n
unfolding hex_rev hex_loop
hex_rev-hex_loop zero n h = omega arith
hex_rev-hex_loop (suc fuel) n h =
    let small : n / 16 < 16 ^ fuel = omega (arith, pow-suc 16 fuel) in
    let ih = hex_rev-hex_loop fuel (n / 16) small in ground arith

live-hex_loop : (fuel n : ℕ) → All (λ c. c ≢ 0) (hex_loop fuel n)
unfolding hex_loop
live-hex_loop zero n = tt
live-hex_loop (suc fuel) n = elim (Bool-cases (n == 0)) [
  | inl z ↦ rw z tt
  | inr z ↦ rw z (λ t. live_digit n t, live-hex_loop fuel (n / 16))
]
  where
    live_digit : (n : ℕ) → hex_digit (n % 16) ≡ 0 → ⊥
    live_digit n t = ground arith

-- The digits of a number, the last one first.
abbrev hex_digits : ℕ → List ℕ
hex_digits n =
    if n == 0
    then 0x30 ∷ []
    else if leb (2 ^ 31) (magnitude n)
    then []
    else hex_loop hex_fuel (magnitude n)

abbrev pub minus : ℕ → List ℕ
minus n = if leb (2 ^ 31) n then 0x2d ∷ [] else []

abbrev pub IsHexDigit : ℕ → Type 0
IsHexDigit c = ((0x30 ≤ c) × (c ≤ 0x39)) ⊎ ((0x41 ≤ c) × (c ≤ 0x46))

-- With the last digit first, the numeral has a first digit and that is not 0.
abbrev pub HasTop : List ℕ → Type 0
HasTop [] = ⊥
HasTop (c ∷ []) = c ≢ 0x30
HasTop (c ∷ d ∷ s) = HasTop (d ∷ s)

HasTop-cons : (c : ℕ) (s : List ℕ) → HasTop s → HasTop (c ∷ s)
HasTop-cons c [] h = absurd h
HasTop-cons c (d ∷ s) h = h

hex_loop-HasTop : (fuel n : ℕ) → n < 16 ^ fuel → n ≢ 0 → HasTop (hex_loop fuel n)
unfolding hex_loop
hex_loop-HasTop zero n h ne = absurd (ne (omega arith))
hex_loop-HasTop (suc fuel) n h ne =
    let some : (n == 0) ≡ false = ground arith in
    let small : n / 16 < 16 ^ fuel = omega (arith, pow-suc 16 fuel) in
    elim (Bool-cases (n / 16 == 0)) [
      | inl z ↦ let e : n / 16 ≡ 0 = ground arith in rw (some, e, hex_loop-zero fuel) (top n ne e)
      | inr z ↦ rw some (
          HasTop-cons (hex_digit (n % 16)) (hex_loop fuel (n / 16))
            (hex_loop-HasTop fuel (n / 16) small (λ t. ground arith)))
    ]
  where
    top : (n : ℕ) → n ≢ 0 → n / 16 ≡ 0 → hex_digit (n % 16) ≢ 0x30
    top n ne e t = ground arith

    hex_loop-zero : (fuel : ℕ) → hex_loop fuel 0 ≡ []
    hex_loop-zero zero = refl
    hex_loop-zero (suc fuel) = refl

hex_digit-IsHexDigit : (n : ℕ) → IsHexDigit (hex_digit (n % 16))
hex_digit-IsHexDigit n = elim (Bool-cases (ltb (n % 16) 10)) [
  | inl s ↦ rw s (inl (ground arith))
  | inr s ↦ rw s (inr (ground arith))
]

hex_loop-IsHexDigit : (fuel n : ℕ) → All IsHexDigit (hex_loop fuel n)
unfolding hex_loop
hex_loop-IsHexDigit zero n = tt
hex_loop-IsHexDigit (suc fuel) n = elim (Bool-cases (n == 0)) [
  | inl z ↦ rw z tt
  | inr z ↦ rw z (hex_digit-IsHexDigit n, hex_loop-IsHexDigit fuel (n / 16))
]

-- These digits, the last one first, are the numeral of the absolute value of the 32-bit pattern `n`,
-- without a leading 0, or none when `n` is the smallest number.
pub record IsHexText (n : ℕ) (digits : List ℕ) : Type 0 where
  pub hex : All IsHexDigit digits
  pub value : n ≢ 2 ^ 31 → hex_rev digits ≡ magnitude n
  pub none_left : n ≡ 2 ^ 31 → digits ≡ []
  pub zero_is : n ≡ 0 → digits ≡ 0x30 ∷ []
  pub top : n ≢ 2 ^ 31 → n ≢ 0 → HasTop digits

hex_digits-IsHexText : (n : ℕ) → n < 2 ^ 32 → IsHexText n (hex_digits n)
unfolding hex_rev
hex_digits-IsHexText n h = elim (Bool-cases (n == 0)) [
  | inl z ↦
      let e : n ≡ 0 = ground arith in
      rw z (record {
        hex = (inl (omega arith, omega arith), tt);
        value = λ t. ground arith;
        none_left = λ t. absurd (omega arith);
        zero_is = λ t. refl;
        top = λ t ne. absurd (ne e);
      })
  | inr z ↦ elim (Bool-cases (leb (2 ^ 31) (magnitude n))) [
    | inl big ↦
        let e : n ≡ 2 ^ 31 = ground arith in
        rw (z, big)
          (record {
            hex = tt;
            value = λ ne. absurd (ne e);
            none_left = λ t. refl;
            zero_is = λ t. absurd (ground arith);
            top = λ ne t. absurd (ne e);
          })
    | inr small ↦
        let fits : magnitude n < 16 ^ hex_fuel = ground arith in
        rw (z, small)
          (record {
            hex = hex_loop-IsHexDigit hex_fuel (magnitude n);
            value = λ ne. hex_rev-hex_loop hex_fuel (magnitude n) fits;
            none_left = λ t. absurd (ground arith);
            zero_is = λ t. absurd (ground arith);
            top = λ ne t. hex_loop-HasTop hex_fuel (magnitude n) fits (λ u. ground arith);
          })
  ]
]

live-hex_digits : (n : ℕ) → All (λ c. c ≢ 0) (hex_digits n)
live-hex_digits n = elim (Bool-cases (n == 0)) [
  | inl z ↦ rw z ((λ t. omega arith), tt)
  | inr z ↦ elim (Bool-cases (leb (2 ^ 31) (magnitude n))) [
    | inl big ↦ rw (z, big) tt
    | inr small ↦ rw (z, small) (live-hex_loop hex_fuel (magnitude n))
  ]
]

All-append_minus : (n : ℕ) (s : List ℕ) → All (λ c. c ≢ 0) s → All (λ c. c ≢ 0) (s ++ minus n)
All-append_minus n [] h = elim (Bool-cases (leb (2 ^ 31) n)) [
  | inl b ↦ rw b ((λ t. omega arith), tt)
  | inr b ↦ rw b tt
]
All-append_minus n (c ∷ s) h = (h.0, All-append_minus n s h.1)

reverse-minus : (n : ℕ) → reverse (minus n) ≡ minus n
reverse-minus n = elim (Bool-cases (leb (2 ^ 31) n)) [ inl b ↦ rw b refl | inr b ↦ rw b refl ]

-- `IntToHex` of a 32-bit pattern returns a minus sign if the number is negative, and behind it, for
-- the smallest number, nothing, and otherwise the hexadecimal digits of its absolute value, in
-- capitals: one 0 for 0, and no 0 in front for any other number.
pub int_to_hex_lem :
    (a : ℕ → ℕ) (n : ℕ)
    → n < 2 ^ 32
    → (digits : List ℕ) × (int_to_hex a n ≡ ok (minus n ++ reverse digits)) × IsHexText n digits
unfolding int_to_hex hex_text
int_to_hex_lem a n h = (
  hex_digits n,
  reverse_str-reverse a (hex_digits n ++ minus n)
        (All-append_minus n (hex_digits n) (live-hex_digits n))
      ∙ ap ok (
          reverse-append (hex_digits n) (minus n)
          ∙ ap (λ m. m ++ reverse (hex_digits n)) (reverse-minus n)),
  hex_digits-IsHexText n h,
)
