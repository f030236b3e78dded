-- ===== src/Process/WallClock/Print.antt =====
-- A time as the wall clock (process/wall_clock_process.c) shows it, typed in again.
use door_rtos.Base.{ℕ, ◌+◌, ◌/◌, ◌%◌, ◌<◌, ◌≡◌, refl, true, List, [], ◌∷◌, arith}
use door_rtos.Process.WallClock.{
  Clock, output_clock, delay_100, clock, clock_bytes, not_negative, less_than, two_digits,
  set_clock, on_message,
}
use door_rtos.Process.Text.{stored, kcd_pid}

-- The bytes that are shown, without the carriage return in front of them.
abbrev pub shown_time : (h m s : ℕ) → List ℕ
shown_time h m s = elim (clock_bytes h m s) [ [] ↦ [] | c ∷ r ↦ r ]

abbrev pub tens : ℕ → ℕ
tens n = (n / 10) % 10 + 0x30

abbrev pub units : ℕ → ℕ
units n = n % 10 + 0x30

two_digits-tens : (n : ℕ) → n < 100 → two_digits (tens n) (units n) ≡ n
two_digits-tens n h = ground arith

not_negative-tens : (n : ℕ) → n < 100 → not_negative (tens n) (units n) ≡ true
not_negative-tens n h = ground arith

less_than-tens : (k n : ℕ) → n < 100 → n < k → less_than k (tens n) (units n) ≡ true
less_than-tens k n l h = ground arith

-- The time in digits, as it is typed in.
abbrev pub typed_time : (h m s : ℕ) → List ℕ
typed_time h m s = tens h ∷ units h ∷ 0x3a ∷ tens m ∷ units m ∷ 0x3a ∷ tens s ∷ units s ∷ []

-- Nothing behind the digits is read.
pub on_message-typed_time :
    (h m s : ℕ) (block : ℕ → ℕ) (c : Clock)
    → h < 24
    → m < 60
    → s < 60
    → on_message kcd_pid (stored (0x57 ∷ 0x53 ∷ typed_time h m s) block) c
      ≡ (clock h m s true, output_clock (clock_bytes h m s) ∷ delay_100 ∷ [])
unfolding on_message set_clock
on_message-typed_time h m s block c hh mm ss =
    rw
      (
        not_negative-tens h (omega arith),
        not_negative-tens m (omega arith),
        not_negative-tens s (omega arith),
        less_than-tens 24 h (omega arith) hh,
        less_than-tens 60 m (omega arith) mm,
        two_digits-tens h (omega arith),
        two_digits-tens m (omega arith),
        two_digits-tens s (omega arith),
      )
      refl

-- A time in range that is typed in behind `WS` the way it is shown sets the clock to that time,
-- whatever the clock was, turns it on, shows the same bytes, and asks for a tick.
pub on_message-clock_bytes :
    (h m s : ℕ) (block : ℕ → ℕ) (c : Clock)
    → h < 24
    → m < 60
    → s < 60
    → on_message kcd_pid (stored (0x57 ∷ 0x53 ∷ shown_time h m s) block) c
      ≡ (clock h m s true, output_clock (clock_bytes h m s) ∷ delay_100 ∷ [])
unfolding on_message set_clock
on_message-clock_bytes h m s block c hh mm ss =
    on_message-typed_time h m s (stored (13 ∷ 0 ∷ []) block) c hh mm ss
