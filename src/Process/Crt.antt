-- ===== src/Process/Crt.antt =====
-- The CRT process (process/crt_process.c): what it does with a message. Blocks and messages are
-- requested, sent and released through the calls of the kernel.
pub mod Echo
use door_rtos.Base.{ℕ, zero, suc, Bool, true, false, ◌==◌, if◌then◌else◌, List, [], ◌∷◌}
use door_rtos.Message.{mess_data_size}
use door_rtos.Process.Text.{crt_display_request, crt_display_no_prompt}

pub data Action : Type 0 where
  -- A new block with this first byte is sent to the UART, and `SERIAL1_IMR` is set to 3.
  output : ℕ → Action
  -- A block is requested, and nothing is done with it.
  unused_block : Action
  -- The message is released.
  release_message : Action

unfoldable pub fancy_prompt : List Action → List Action
fancy_prompt r =
    output 0x75
    ∷ output 0x40
    ∷ output 0x64
    ∷ output 0x6f
    ∷ output 0x6f
    ∷ output 0x72
    ∷ output 0x3a
    ∷ output 0x7e
    ∷ output 0x23
    ∷ output 0x20
    ∷ r

-- The branch of the loop for a carriage return, with a prompt or without one.
unfoldable pub new_line : (prompt : Bool) → List Action → List Action
new_line prompt r = output 13 ∷ output 10 ∷ unused_block ∷ (if prompt then fancy_prompt r else r)

-- The two loops over the data from index `i`, with so many rounds left. The code reads the byte
-- before it compares the index.
unfoldable pub display :
    (prompt : Bool) → (rounds i : ℕ) → (bytes : ℕ → ℕ) → List Action → List Action
display prompt zero i bytes r = r
display prompt (suc rounds) i bytes r =
    let rest = display prompt rounds (suc i) bytes r in
    if bytes i == 0
    then r
    else if bytes i == 13
    then new_line prompt rest
    else output (bytes i) ∷ rest

unfoldable pub on_message : (kind : ℕ) (bytes : ℕ → ℕ) → List Action
on_message kind bytes =
    if kind == crt_display_request
    then display true mess_data_size 0 bytes (release_message ∷ [])
    else if kind == crt_display_no_prompt
    then display false mess_data_size 0 bytes (release_message ∷ [])
    else release_message ∷ []
