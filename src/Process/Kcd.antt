-- ===== src/Process/Kcd.antt =====
-- The keyboard command decoder (process/kcd_process.c): what a message does to its locals, and
-- what the process sends then. Blocks and messages are requested and sent through the calls of the
-- kernel. The prints to the debug port are left out.
pub mod Registration
pub mod Typing
pub mod Bounds
use door_rtos.Base.{
  ℕ, zero, suc, ◌+◌, ◌%◌, ◌^◌, Bool, true, false, not, ◌&&◌, ◌==◌, ltb, if◌then◌else◌, Option, none,
  some, List, [], ◌∷◌, ◌++◌, write,
}
use door_rtos.Process.Text.{stored, text_at, command_registration, keyboard_input}

-- The locals that last from message to message. `tosend` is the data of the block it points to.
pub record Kcd : Type 0 where
  pub map : ℕ → ℕ
  pub i : ℕ
  pub char_typed : ℕ
  pub buffer_flag : Bool
  pub tosend : ℕ → ℕ

pub data Action : Type 0 where
  -- `tosend` with these data is sent to a process.
  forward : (pid : ℕ) → (bytes : ℕ → ℕ) → Action
  -- A new block with these data is sent to the CRT process, to be shown without a prompt.
  report : (bytes : ℕ → ℕ) → Action
  -- The message itself, with these data, is sent to the CRT process, to be shown.
  echo : (bytes : ℕ → ℕ) → Action

abbrev pub max_command_size : ℕ
max_command_size = 32

-- The text "\rnot OK" and its NUL.
abbrev errmess : List ℕ
errmess = 13 ∷ 0x6e ∷ 0x6f ∷ 0x74 ∷ 0x20 ∷ 0x4f ∷ 0x4b ∷ 0 ∷ []

-- An index of `map`. It is a byte, and the array has 128 elements.
abbrev pub is_index : ℕ → Bool
is_index c = ltb c 128

unfoldable pub register : (sender_pid : ℕ) (bytes : ℕ → ℕ) → Kcd → Option (Kcd × List Action)
register sender_pid bytes k =
    if is_index (bytes 0)
    then some (record k { map = write k.map (bytes 0) sender_pid }, echo (write bytes 1 0) ∷ [])
    else none

-- `char_typed > 2` for an `int`.
abbrev pub is_long : (char_typed : ℕ) → Bool
is_long n = ltb 2 n && ltb n (2 ^ 31)

-- The branches for a key, with the data of the block that is new if one is requested.
unfoldable pub on_key : (block : ℕ → ℕ) (c : ℕ) → Kcd → Option (Kcd × List Action)
on_key block c k =
    if (c == 0x25) && not k.buffer_flag
    then some (record k { tosend = block; buffer_flag = true }, [])
    else if k.buffer_flag
    then if c == 13
      then if is_index (k.tosend 0)
        then some
            (record k { i = 0; buffer_flag = false }, forward (k.map (k.tosend 0)) k.tosend ∷ [])
        else none
      else if ltb k.i max_command_size
      then some (record k { tosend = write k.tosend k.i c; i = k.i + 1 }, [])
      else some (k, [])
    else if is_long k.char_typed && (c == 13)
    then some (record k { char_typed = 0 }, report (stored errmess block) ∷ [])
    else if c == 13
    then some (record k { char_typed = 0 }, [])
    else some (record k { char_typed = (k.char_typed + 1) % 2 ^ 32 }, [])

-- The list is sent, and then the echo.
abbrev pub and_echo : (bytes : ℕ → ℕ) → Kcd × List Action → Kcd × List Action
and_echo bytes (k, []) = (k, echo bytes ∷ [])
and_echo bytes (k, a ∷ r) = (k, a ∷ echo bytes ∷ [])

-- A round of the loop; nothing when the code goes outside `map`.
unfoldable pub on_message :
    (kind sender_pid : ℕ) (bytes : ℕ → ℕ) → (block : ℕ → ℕ) → Kcd → Option (Kcd × List Action)
on_message kind sender_pid bytes block k =
    if kind == command_registration
    then register sender_pid bytes k
    else if kind == keyboard_input
    then elim (on_key block (bytes 0) k) [ none ↦ none | some r ↦ some (and_echo bytes r) ]
    else some (k, echo bytes ∷ [])

-- The locals before the loop. The map and the pointer's block hold anything.
abbrev pub start : (map tosend : ℕ → ℕ) → Kcd
start map tosend = record { map = map; i = 0; char_typed = 0; buffer_flag = false; tosend = tosend }

-- A message, and what a block holds that is requested for it.
pub record Incoming : Type 0 where
  pub kind : ℕ
  pub sender_pid : ℕ
  pub bytes : ℕ → ℕ
  pub block : ℕ → ℕ

abbrev pub incoming : (kind sender_pid : ℕ) (bytes block : ℕ → ℕ) → Incoming
incoming kind sender_pid bytes block = record {
  kind = kind;
  sender_pid = sender_pid;
  bytes = bytes;
  block = block;
}

abbrev sends : List Action → Kcd × List Action → Kcd × List Action
sends acts (k, more) = (k, acts ++ more)

-- Rounds of the loop for these messages.
unfoldable pub on_messages : List Incoming → Kcd → Option (Kcd × List Action)
on_messages [] k = some (k, [])
on_messages (m ∷ ms) k = elim (on_message m.kind m.sender_pid m.bytes m.block k) [
  | none ↦ none
  | some (k', acts) ↦ elim (on_messages ms k') [ none ↦ none | some r ↦ some (sends acts r) ]
]
