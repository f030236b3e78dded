-- ===== src/Process/Session.antt =====
-- A command from the keyboard to the screen: the keyboard decoder (process/kcd_process.c) gets the
-- keys, the wall clock (process/wall_clock_process.c) the message that it sends, and the CRT process
-- (process/crt_process.c) the time that the wall clock shows.
use door_rtos.Base.{
  ℕ, ◌+◌, ◌/◌, ◌%◌, ◌≤◌, ◌<◌, ◌≡◌, ◌≢◌, refl, true, false, some, List, [], ◌∷◌, ◌++◌, length, All,
  stored, stored-text_at, text_at, ◌∙◌, arith, ◌==◌,
}
use door_rtos.Process.Text.{kcd_pid, crt_display_no_prompt}
use door_rtos.Process.Kcd.{forward, echo}
use door_rtos.Process.Kcd.Typing.{idle, key, types, echoes, types-forward}
use door_rtos.Process.Crt as Crt
use door_rtos.Process.Crt.Echo.{sent, expand, on_message-expand}
use door_rtos.Process.WallClock.{Clock, clock, clock_bytes, output_clock, delay_100, on_message}
use door_rtos.Process.WallClock.Print.{typed_time, on_message-typed_time}

-- What is typed behind `%`.
abbrev pub set_command : (h m s : ℕ) → List ℕ
set_command h m s = 0x57 ∷ 0x53 ∷ typed_time h m s

digit-ne : (n k : ℕ) → k < 0x30 → n % 10 + 0x30 ≢ k
digit-ne n k h e = omega arith

set_command-plain : (h m s : ℕ) → All (λ d. d ≢ 13) (set_command h m s)
set_command-plain h m s = (
  (λ e. omega arith),
  (
    (λ e. omega arith),
    (
      digit-ne (h / 10) 13 (omega arith),
      (
        digit-ne h 13 (omega arith),
        (
          (λ e. omega arith),
          (
            digit-ne (m / 10) 13 (omega arith),
            (
              digit-ne m 13 (omega arith),
              (
                (λ e. omega arith),
                (digit-ne (s / 10) 13 (omega arith), (digit-ne s 13 (omega arith), tt)),
              ),
            ),
          ),
        ),
      ),
    ),
  ),
)

-- The bytes of a time that is shown, before their NUL.
abbrev shown : (h m s : ℕ) → List ℕ
shown h m s = 13 ∷ typed_time h m s ++ 13 ∷ []

shown-live : (h m s : ℕ) → All (λ d. d ≢ 0) (shown h m s)
shown-live h m s = (
  (λ e. omega arith),
  (
    digit-ne (h / 10) 0 (omega arith),
    (
      digit-ne h 0 (omega arith),
      (
        (λ e. omega arith),
        (
          digit-ne (m / 10) 0 (omega arith),
          (
            digit-ne m 0 (omega arith),
            (
              (λ e. omega arith),
              (
                digit-ne (s / 10) 0 (omega arith),
                (digit-ne s 0 (omega arith), ((λ e. omega arith), tt)),
              ),
            ),
          ),
        ),
      ),
    ),
  ),
)

shown-at :
    (h m s : ℕ) (block : ℕ → ℕ) (j : ℕ)
    → j ≤ length (shown h m s)
    → stored (clock_bytes h m s) block j ≡ text_at (shown h m s) j
shown-at h m s block j l = stored-text_at (shown h m s) block j l

digit-plain : (n : ℕ) → (n % 10 + 0x30 == 13) ≡ false
digit-plain n = ground arith

expand-shown : (h m s : ℕ) → expand false (shown h m s) ≡ 13 ∷ 10 ∷ typed_time h m s ++ 13 ∷ 10 ∷ []
expand-shown h m s =
    rw
      (
        digit-plain (h / 10),
        digit-plain h,
        digit-plain (m / 10),
        digit-plain m,
        digit-plain (s / 10),
        digit-plain s,
      )
      refl

-- Typing `%WS`, a time in range as `hh:mm:ss`, and a carriage return, when no command is being
-- typed, makes the decoder send one block to the process that is registered for `W`, and that block
-- makes the wall clock show the time and run from it, whatever it did before. What it shows makes
-- the CRT process send a new line, the same digits and another new line to the UART. None of this
-- depends on what the blocks held before.
pub types-sent :
    (blocks : ℕ → ℕ → ℕ) (map : ℕ → ℕ) (n : ℕ) (t block : ℕ → ℕ) (c : Clock) (h m s : ℕ)
    → h < 24
    → m < 60
    → s < 60
    → (bytes : ℕ → ℕ) × (types blocks (0x25 ∷ set_command h m s ++ 13 ∷ []) (idle map n t)
        ≡ some (
          idle map n bytes,
          echoes (0x25 ∷ set_command h m s) ++ forward (map 0x57) bytes ∷ echo (key 13) ∷ [],
        ))
      × (on_message kcd_pid bytes c
          ≡ (clock h m s true, output_clock (clock_bytes h m s) ∷ delay_100 ∷ []))
      × (sent (Crt.on_message crt_display_no_prompt (stored (clock_bytes h m s) block))
          ≡ 13 ∷ 10 ∷ typed_time h m s ++ 13 ∷ 10 ∷ [])
types-sent blocks map n t block c h m s hh mm ss =
    let (out, lost) =
      on_message-expand false (stored (clock_bytes h m s) block) (shown h m s) (shown-live h m s)
        (omega arith) (λ j l u. shown-at h m s block j l) in
    (
      stored (set_command h m s) (blocks 0),
      types-forward blocks map n t 0x57 (0x53 ∷ typed_time h m s) (omega arith)
          (set_command-plain h m s) (omega arith),
      on_message-typed_time h m s (blocks 0) c hh mm ss,
      out ∙ expand-shown h m s,
    )
