-- ===== src/Examples/Processes.antt =====
-- The wall clock, a second before midnight.
use door_rtos.Process.Text.{kcd_pid}
use door_rtos.Base.{text_at, [], ◌∷◌, ℕ, ◌+◌, ◌%◌, ◌<◌, ◌≡◌, ◌↔◌, refl, true, false, arith}
use door_rtos.Process.WallClock.{Clock, clock, on_message, increment, two_digits}
use door_rtos.Process.WallClock.Time.{seconds, seconds-increment, on_message_iff}

abbrev late : Clock
late = clock 23 59 59 true

seconds-increment_example :
    (seconds (increment late) ≡ (seconds late + 1) % 86400)
    × ((increment late).hour < 24)
    × ((increment late).min < 60)
    × ((increment late).sec < 60)
seconds-increment_example = seconds-increment late (omega arith) (omega arith) (omega arith)

-- `WS12:34:99`
abbrev late_seconds : ℕ → ℕ
late_seconds = text_at (0x57 ∷ 0x53 ∷ 0x31 ∷ 0x32 ∷ 0x3a ∷ 0x33 ∷ 0x34 ∷ 0x3a ∷ 0x39 ∷ 0x39 ∷ [])

on_message_iff_example :
    ((on_message kcd_pid late_seconds (clock 0 0 0 false)).0.wall_clock_on ≡ true)
    ↔ ((two_digits 0x31 0x32 < 24) × (two_digits 0x33 0x34 < 60))
on_message_iff_example =
    on_message_iff late_seconds (clock 0 0 0 false) refl (omega arith, omega arith)
      (omega arith, omega arith) (omega arith, omega arith) (omega arith, omega arith)
      (omega arith, omega arith) (omega arith, omega arith) refl
