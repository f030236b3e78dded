-- ===== src/Process/SetPriority.antt =====
-- The process that sets priorities (process/set_priority_process.c): what it does with a message.
-- Blocks and messages are sent and released, and the priority is set, through the calls of the
-- kernel. The prints to the debug port are left out.
pub mod Command
use door_rtos.Base.{
  ℕ, ◌+◌, ◌-◌, ◌/◌, ◌%◌, ◌^◌, Bool, true, false, not, ◌&&◌, ◌==◌, ltb, if◌then◌else◌, List, [], ◌∷◌,
  null,
}
use door_rtos.Task.{Pcbs, get_pcb}
use door_rtos.Process.Text.{kcd_pid}
use door_rtos.Process.WallClock.{below, above_of, below_of, not_negative, less_than, two_digits}

pub data Action : Type 0 where
  -- The call `set_process_priority`, with its arguments as 32-bit numbers.
  set_priority : (process_id priority : ℕ) → Action
  -- These bytes are stored in the one block that the process has for errors, and it is sent to the
  -- CRT process, to be shown without a prompt.
  show_error : List ℕ → Action
  -- The message is released.
  release_message : Action

-- The last digit of a number, or of a negative one, as a character: `n % 10 + 0x30`.
abbrev digit_of : (not_negative : Bool) → ℕ → ℕ
digit_of b n = if b then n % 10 + 0x30 else 0x30 - n % 10

-- `in_process` is the difference of `above_of` and `below_of`, and this is its distance from 0.
abbrev pub distance : (a b : ℕ) → ℕ
distance a b = (a - b) + (b - a)

-- The text of an error for the digits of the process and the priority.
abbrev error_text : (tens units prio : ℕ) → List ℕ
error_text tens units prio =
    13 ∷ 0x45 ∷ 0x52 ∷ 0x52 ∷ 0x52 ∷ 0x4f ∷ 0x52 ∷ 0x20 ∷ 0x25 ∷ 0x28 ∷ 0x50 ∷ 0x49 ∷ 0x44 ∷ 0x3a
    ∷ tens ∷ units ∷ 0x20 ∷ 0x50 ∷ 0x3a ∷ prio ∷ 0x29 ∷ 13 ∷ 0 ∷ []

unfoldable pub error_message : (t u p : ℕ) → Action
error_message t u p =
    let n = distance (above_of t u) (below_of t u) in
    let low = 0x30 + below p in
    show_error (
      error_text (digit_of (not_negative t u) (n / 10)) (digit_of (not_negative t u) n)
        (digit_of (not (ltb p low)) (distance p low)))

-- `in_process > 0 && in_process < 100 && in_priority < 4 && get_pcb(in_process)`. The priority is
-- `p - 0x30` for a `signed char`, and may be negative.
abbrev pub is_command_ok : (pcbs : Pcbs) (t u p : ℕ) → Bool
is_command_ok pcbs t u p =
    (ltb (below_of t u) (above_of t u) && less_than 100 t u)
    && (ltb p (0x30 + below p + 4) && not (get_pcb (two_digits t u) pcbs == null))

-- `in_priority` as a 32-bit number.
abbrev pub priority_of : (p : ℕ) → ℕ
priority_of p = (p + 2 ^ 32 - (0x30 + below p)) % 2 ^ 32

unfoldable pub on_message : (pcbs : Pcbs) (sender_pid : ℕ) (bytes : ℕ → ℕ) → List Action
on_message pcbs sender_pid bytes =
    if (sender_pid == kcd_pid) && (bytes 1 == 0x20)
    then (if is_command_ok pcbs (bytes 2) (bytes 3) (bytes 5)
        then set_priority (two_digits (bytes 2) (bytes 3)) (priority_of (bytes 5))
        else error_message (bytes 2) (bytes 3) (bytes 5))
      ∷ release_message
      ∷ []
    else release_message ∷ []
