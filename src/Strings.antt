-- ===== src/Strings.antt =====
-- The string routines of kernel/string.c, over the bytes of a C string before its NUL. A routine
-- that writes gives the bytes it leaves in the destination, the NUL included.
pub mod Laws
pub mod Numbers
pub mod Literals
pub mod Turned
pub mod Hex
use door_rtos.Base.{
  ℕ, zero, suc, ◌+◌, ◌%◌, ◌/◌, Bool, true, false, ◌&&◌, ◌||◌, not, ◌==◌, ltb, if◌then◌else◌, List,
  [], ◌∷◌, length,
}
use door_rtos.Task.{rtx_success, rtx_error}

-- The bytes that `Strncpy` stores, from its loop with `count` done.
unfoldable pub strncpy : (old_string : List ℕ) (n : ℕ) → List ℕ
strncpy [] n = 0 ∷ []
strncpy (c ∷ s) zero = 0 ∷ []
strncpy (c ∷ s) (suc n) = c ∷ strncpy s n

-- The length counts the NUL.
unfoldable pub str_length_from : (length : ℕ) → List ℕ → ℕ
str_length_from n [] = n + 1
str_length_from n (c ∷ s) = str_length_from (n + 1) s

unfoldable pub str_length : List ℕ → ℕ
str_length = str_length_from 0

-- The loop of `StrCompare`, for strings that may differ in length: behind the end of a string
-- stands its NUL.
unfoldable pub compare_loop : List ℕ → List ℕ → Bool
compare_loop [] [] = true
compare_loop [] (d ∷ t) = false
compare_loop (c ∷ s) [] = false
compare_loop (c ∷ s) (d ∷ t) = (c == d) && compare_loop s t

unfoldable pub str_compare : List ℕ → List ℕ → Bool
str_compare text1 text2 =
    if str_length text1 == str_length text2 then compare_loop text1 text2 else false

abbrev pub lf : ℕ
lf = 10

abbrev pub cr : ℕ
cr = 13

-- Every line break becomes a NUL, so that the string ends at the first one; this is the string
-- that a reader then finds, up to its NUL.
unfoldable pub chop_bytes : List ℕ → List ℕ
chop_bytes [] = []
chop_bytes (c ∷ s) = (if (c == lf) || (c == cr) then 0 else c) ∷ chop_bytes s

-- The digits of a number, the last one first, as they are put into `string_holder_temp`.
unfoldable pub digit_loop : ℕ → (number : ℕ) → List ℕ
digit_loop zero number = []
digit_loop (suc fuel) number =
    let rest = digit_loop fuel (number / 10) in
    if number == 0 then [] else (0x30 + number % 10) ∷ rest

-- Enough for a `UINT32`.
abbrev pub digit_fuel : ℕ
digit_fuel = 10

-- From the last digit stored back to the first, then the NUL.
unfoldable pub reverse_digits : List ℕ → List ℕ → List ℕ
reverse_digits [] out = out
reverse_digits (c ∷ s) out = reverse_digits s (c ∷ out)

unfoldable pub int_to_str : (number : ℕ) → List ℕ
int_to_str number =
    reverse_digits (if number == 0 then 0x30 ∷ [] else digit_loop digit_fuel number) []

unfoldable pub is_integer : List ℕ → ℕ
is_integer [] = rtx_success
is_integer (c ∷ s) = if ltb c 0x30 || ltb 0x39 c then rtx_error else is_integer s
