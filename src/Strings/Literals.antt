-- ===== src/Strings/Literals.antt =====
-- The routines of kernel/string.c that build their result behind a pointer to a string literal
-- (`StrNConcat`, `IntToHex`, `ReverseStr`): the bytes that they store there. A literal "\0" has room
-- for two bytes.
use door_rtos.Base.{
  ℕ, zero, suc, ◌+◌, ◌-◌, ◌/◌, ◌%◌, ◌^◌, Bool, ◌&&◌, ◌==◌, ltb, leb, if◌then◌else◌, List, [], ◌∷◌,
  ◌++◌, Outcome, ok, out_of_fuel, ◌>>=◌, write, text_at, length,
}
use door_rtos.Strings.{str_length}

-- `count < N` for an `int` N.
abbrev pub below_n : (count n : ℕ) → Bool
below_n count n = ltb count n && ltb n (2 ^ 31)

-- A loop of `StrNConcat` in front of what is stored afterwards. The code does not change `count`.
unfoldable pub copy_while : (count n : ℕ) → (text : List ℕ) → List ℕ → List ℕ
copy_while count n [] r = r
copy_while count n (c ∷ s) r =
    let rest = copy_while count n s r in if below_n count n then c ∷ rest else r

unfoldable pub str_n_concat : (text1 text2 : List ℕ) (n : ℕ) → List ℕ
str_n_concat text1 text2 n = copy_while 0 n text1 (copy_while 0 n text2 (0 ∷ []))

-- `while (counter > 0)` of `ReverseStr`, with `text` at the index `at`.
unfoldable pub fill_back : (counter size at : ℕ) → (text : ℕ → ℕ) → (string_array : ℕ → ℕ) → ℕ → ℕ
fill_back zero size at text a = a
fill_back (suc counter) size at text a =
    fill_back counter size (at - 1) text (write a (size - suc counter - 1) (text at))

-- `while (stringArray[counter] != '\0')`: what is copied.
unfoldable pub copy_array : ℕ → (counter : ℕ) → (string_array : ℕ → ℕ) → Outcome (List ℕ)
copy_array zero counter a = out_of_fuel
copy_array (suc fuel) counter a =
    let rest = copy_array fuel (suc counter) a in
    if a counter == 0 then ok [] else (rest >>= λ s. ok (a counter ∷ s))

-- The bytes of the result before its NUL, with what the array on the stack held before.
unfoldable pub reverse_str : (string_array : ℕ → ℕ) → (text : List ℕ) → Outcome (List ℕ)
reverse_str a text = copy_array (str_length text) 0 (
    fill_back (length text) (str_length text) (length text - 1) (text_at text)
      (write a (length text) 0))

abbrev pub hex_digit : ℕ → ℕ
hex_digit d = if ltb d 10 then 0x30 + d else 0x37 + d

-- The digits, the last one first.
unfoldable pub hex_loop : ℕ → (number : ℕ) → List ℕ
hex_loop zero number = []
hex_loop (suc fuel) number =
    let rest = hex_loop fuel (number / 16) in
    if number == 0 then [] else hex_digit (number % 16) ∷ rest

-- Enough for a `SINT32`.
abbrev pub hex_fuel : ℕ
hex_fuel = 8

-- `number` after it has been made positive: `number * -1` of the smallest number is that number.
abbrev pub magnitude : ℕ → ℕ
magnitude number = if leb (2 ^ 31) number then 2 ^ 32 - number else number

-- What is stored before it is turned round. The smallest number is still not positive.
unfoldable pub hex_text : (number : ℕ) → List ℕ
hex_text number =
    (if number == 0
      then 0x30 ∷ []
      else if leb (2 ^ 31) (magnitude number)
      then []
      else hex_loop hex_fuel (magnitude number))
    ++ (if leb (2 ^ 31) number then 0x2d ∷ [] else [])

-- `number` is the pattern of a `SINT32`.
unfoldable pub int_to_hex : (string_array : ℕ → ℕ) → (number : ℕ) → Outcome (List ℕ)
int_to_hex a number = reverse_str a (hex_text number)
