-- ===== src/Process/SetPriority/Command.antt =====
-- The commands of the process that sets priorities (process/set_priority_process.c).
use door_rtos.Base.{
  ℕ, ◌+◌, ◌/◌, ◌%◌, ◌^◌, ◌≤◌, ◌<◌, ◌≡◌, ◌≢◌, refl, true, false, ◌==◌, ltb, List, [], ◌∷◌, null,
  arith,
}
use door_rtos.Task.{Pcbs, get_pcb}
use door_rtos.Process.Text.{stored, kcd_pid}
use door_rtos.Process.WallClock.{below, above_of, below_of, less_than, two_digits}
use door_rtos.Process.SetPriority.{
  set_priority, release_message, is_command_ok, priority_of, on_message,
}

-- The text `C nn p`, for a number of two digits and a byte.
abbrev pub command_text : (pid p : ℕ) → List ℕ
command_text pid p = 0x43 ∷ 0x20 ∷ (pid / 10 + 0x30) ∷ (pid % 10 + 0x30) ∷ 0x20 ∷ p ∷ []

two_digits-command : (pid : ℕ) → pid < 100 → two_digits (pid / 10 + 0x30) (pid % 10 + 0x30) ≡ pid
two_digits-command pid h = ground arith

positive-command :
    (pid : ℕ)
    → 0 < pid
    → pid < 100
    → ltb
        (below_of (pid / 10 + 0x30) (pid % 10 + 0x30))
        (above_of (pid / 10 + 0x30) (pid % 10 + 0x30))
      ≡ true
positive-command pid l h = ground arith

less_than-command : (pid : ℕ) → pid < 100 → less_than 100 (pid / 10 + 0x30) (pid % 10 + 0x30) ≡ true
less_than-command pid h = ground arith

-- What is left of the tests, for a pid that a process has.
is_command_ok-eq :
    (pcbs : Pcbs) (pid p : ℕ)
    → 0 < pid
    → pid < 100
    → get_pcb pid pcbs ≢ null
    → is_command_ok pcbs (pid / 10 + 0x30) (pid % 10 + 0x30) p ≡ ltb p (0x30 + below p + 4)
is_command_ok-eq pcbs pid p l h there =
    let found : (get_pcb pid pcbs == null) ≡ false = ground arith in
    rw (positive-command pid l h, less_than-command pid h, two_digits-command pid h, found)
      (ground arith)

priority_of-digit : (n : ℕ) → n < 4 → priority_of (n + 0x30) ≡ n
priority_of-digit n h = ground arith

digit_ok : (n : ℕ) → n < 4 → ltb (n + 0x30) (0x30 + below (n + 0x30) + 4) ≡ true
digit_ok n h = ground arith

-- For a process with a pid from 1 to 99 in the table and a number below 4, the command `C nn p`
-- with their digits makes the one call that gives the process that number.
pub on_message-command_text :
    (pcbs : Pcbs) (pid n : ℕ) (block : ℕ → ℕ)
    → 0 < pid
    → pid < 100
    → n < 4
    → get_pcb pid pcbs ≢ null
    → on_message pcbs kcd_pid (stored (command_text pid (n + 0x30)) block)
      ≡ set_priority pid n ∷ release_message ∷ []
unfolding on_message
on_message-command_text pcbs pid n block l h small there =
    rw
      (
        is_command_ok-eq pcbs pid (n + 0x30) l h there,
        digit_ok n small,
        two_digits-command pid h,
        priority_of-digit n small,
      )
      refl

-- A byte below the digit 0 in place of the priority is accepted: the call gets a number whose low
-- byte, which is what the kernel reads, is 208 or more.
pub on_message-negative :
    (pcbs : Pcbs) (pid p : ℕ) (block : ℕ → ℕ)
    → 0 < pid
    → pid < 100
    → p < 0x30
    → get_pcb pid pcbs ≢ null
    → (on_message pcbs kcd_pid (stored (command_text pid p) block)
        ≡ set_priority pid (priority_of p) ∷ release_message ∷ [])
      × (208 ≤ priority_of p % 2 ^ 8)
unfolding on_message
on_message-negative pcbs pid p block l h small there =
    let accepted : ltb p (0x30 + below p + 4) ≡ true = ground arith in
    (
      rw (is_command_ok-eq pcbs pid p l h there, accepted, two_digits-command pid h) refl,
      ground arith,
    )
