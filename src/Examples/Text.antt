-- ===== src/Examples/Text.antt =====
-- Strings and numbers.
use door_rtos.Base.{
  ℕ, ◌+◌, ◌≤◌, ◌<◌, ◌≡◌, List, reverse, ok, ◌++◌, ◌-◌, ◌^◌, [], ◌∷◌, arith, length,
}
use door_rtos.Task.{rtx_success}
use door_rtos.Strings.{int_to_str, is_integer}
use door_rtos.Strings.Literals.{str_n_concat, int_to_hex}
use door_rtos.Strings.Turned.{str_n_concat-append}
use door_rtos.Strings.Hex.{minus, IsHexText, int_to_hex_lem}
use door_rtos.Strings.Numbers.{value_from, int_to_str_lem}

int_to_str_lem_example :
    (value_from 0 (int_to_str 4096) ≡ 4096)
    × (is_integer (int_to_str 4096) ≡ rtx_success)
    × (0 < length (int_to_str 4096))
    × (length (int_to_str 4096) + 1 ≤ 20)
int_to_str_lem_example = int_to_str_lem 4096 (omega arith)

abbrev ab : List ℕ
ab = 0x61 ∷ 0x62 ∷ []

abbrev dashes : ℕ → ℕ
dashes i = 0x2d

-- The bound is 1.
str_n_concat-append_example : str_n_concat ab (0x63 ∷ []) 1 ≡ 0x61 ∷ 0x62 ∷ 0x63 ∷ 0 ∷ []
str_n_concat-append_example = str_n_concat-append ab (0x63 ∷ []) 1 (omega arith) (omega arith)

-- -31.
int_to_hex_lem_example :
    (digits : List ℕ) × (int_to_hex dashes (2 ^ 32 - 31)
      ≡ ok (minus (2 ^ 32 - 31) ++ reverse digits))
    × IsHexText (2 ^ 32 - 31) digits
int_to_hex_lem_example = int_to_hex_lem dashes (2 ^ 32 - 31) (omega arith)
