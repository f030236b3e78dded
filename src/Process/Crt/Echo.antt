-- ===== src/Process/Crt/Echo.antt =====
-- What the CRT process (process/crt_process.c) puts out for a text.
use door_rtos.Base.{
  ℕ, zero, suc, ◌+◌, ◌≤◌, ◌<◌, ◌≡◌, ◌≢◌, refl, ◌∙◌, ap, Bool, true, false, Bool-cases, inl, inr,
  ◌==◌, if◌then◌else◌, List, [], ◌∷◌, ◌++◌, length, All, arith,
}
use door_rtos.Message.{mess_data_size}
use door_rtos.Process.Text.{text_at, crt_display_request, crt_display_no_prompt}
use door_rtos.Process.Crt.{
  Action, output, unused_block, release_message, fancy_prompt, new_line, display, on_message,
}

-- The bytes that are sent to the UART.
abbrev pub sent : List Action → List ℕ
sent [] = []
sent (output c ∷ r) = c ∷ sent r
sent (unused_block ∷ r) = sent r
sent (release_message ∷ r) = sent r

-- The blocks that are taken from the kernel and neither sent nor released.
abbrev pub lost_blocks : List Action → ℕ
lost_blocks [] = 0
lost_blocks (output c ∷ r) = lost_blocks r
lost_blocks (unused_block ∷ r) = suc (lost_blocks r)
lost_blocks (release_message ∷ r) = lost_blocks r

-- The text `u@door:~# `.
abbrev pub prompt_text : List ℕ
prompt_text = 0x75 ∷ 0x40 ∷ 0x64 ∷ 0x6f ∷ 0x6f ∷ 0x72 ∷ 0x3a ∷ 0x7e ∷ 0x23 ∷ 0x20 ∷ []

-- A text with a line feed, and the prompt if there is one, behind each carriage return.
abbrev pub expand : (prompt : Bool) → List ℕ → List ℕ
expand prompt [] = []
expand prompt (c ∷ s) =
    let rest = expand prompt s in
    if c == 13 then 13 ∷ 10 ∷ (if prompt then prompt_text ++ rest else rest) else c ∷ rest

abbrev pub returns : List ℕ → ℕ
returns [] = 0
returns (c ∷ s) = let rest = returns s in if c == 13 then suc rest else rest

abbrev pub display_kind : (prompt : Bool) → ℕ
display_kind prompt = if prompt then crt_display_request else crt_display_no_prompt

sent-new_line :
    (prompt : Bool) (r : List Action)
    → sent (new_line prompt r) ≡ 13 ∷ 10 ∷ (if prompt then prompt_text ++ sent r else sent r)
unfolding new_line fancy_prompt
sent-new_line true r = refl
sent-new_line false r = refl

lost_blocks-new_line :
    (prompt : Bool) (r : List Action) → lost_blocks (new_line prompt r) ≡ suc (lost_blocks r)
unfolding new_line fancy_prompt
lost_blocks-new_line true r = refl
lost_blocks-new_line false r = refl

abbrev Shows : Bool → List ℕ → List Action → Type 0
Shows prompt s r = (sent r ≡ expand prompt s) × (lost_blocks r ≡ returns s)

display-Shows :
    (prompt : Bool) (rounds i : ℕ) (bytes : ℕ → ℕ) (s : List ℕ)
    → All (λ c. c ≢ 0) s
    → length s ≤ rounds
    → ((j : ℕ) → j ≤ length s → j < rounds → bytes (i + j) ≡ text_at s j)
    → Shows prompt s (display prompt rounds i bytes (release_message ∷ []))
unfolding display
display-Shows prompt zero i bytes [] text small at = (refl, refl)
display-Shows prompt zero i bytes (c ∷ s) text small at = absurd (omega arith)
display-Shows prompt (suc rounds) i bytes [] text small at =
    let e : bytes i ≡ 0 = ap bytes (omega arith) ∙ at 0 (omega arith) (omega arith) in
    rw e (refl, refl)
display-Shows prompt (suc rounds) i bytes (c ∷ s) text small at =
    let e : bytes i ≡ c = ap bytes (omega arith) ∙ at 0 (omega arith) (omega arith) in
    let live : (c == 0) ≡ false = ground (arith, text.0) in
    let (a, b) =
      display-Shows prompt rounds (suc i) bytes s text.1 (omega arith)
        (λ j h l. ap bytes (omega arith) ∙ at (suc j) (omega arith) (omega arith)) in
    let r = display prompt rounds (suc i) bytes (release_message ∷ []) in
    elim (Bool-cases (c == 13)) [
      | inl h ↦
          rw (e, live, h)
            (rw (sent-new_line prompt r, lost_blocks-new_line prompt r, a, b) (refl, refl))
      | inr h ↦ rw (e, live, h) (ap (λ l. c ∷ l) a, b)
    ]

-- Of data that start with a text of at most 128 bytes, none of them NUL, and then have a NUL, or
-- end, and that are shown with a prompt or without one, the process sends each byte of the text to
-- the UART, in order, with a line feed (and the prompt) behind each carriage return. For each
-- carriage return it also takes a block that it does not use.
pub on_message-expand :
    (prompt : Bool) (bytes : ℕ → ℕ) (s : List ℕ)
    → All (λ c. c ≢ 0) s
    → length s ≤ mess_data_size
    → ((j : ℕ) → j ≤ length s → j < mess_data_size → bytes j ≡ text_at s j)
    → (sent (on_message (display_kind prompt) bytes) ≡ expand prompt s)
      × (lost_blocks (on_message (display_kind prompt) bytes) ≡ returns s)
unfolding on_message
on_message-expand true bytes s text small at =
    display-Shows true mess_data_size 0 bytes s text small
      (λ j h l. ap bytes (omega arith) ∙ at j h l)
on_message-expand false bytes s text small at =
    display-Shows false mess_data_size 0 bytes s text small
      (λ j h l. ap bytes (omega arith) ∙ at j h l)
