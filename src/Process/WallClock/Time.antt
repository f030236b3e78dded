-- ===== src/Process/WallClock/Time.antt =====
-- The time of day of the wall clock (process/wall_clock_process.c).
use door_rtos.Base.{
  ℕ, ◌+◌, ◌*◌, ◌%◌, ◌<◌, ◌≡◌, ◌↔◌, true, false, Bool-cases, inl, inr, ◌&&◌, ◌==◌, arith,
}
use door_rtos.Process.WallClock.{
  Clock, is_good_format, two_digits, set_clock, increment, on_message,
}
use door_rtos.Kernel.Interrupts.{timer_pid}
use door_rtos.Process.Text.{kcd_pid}
use door_rtos.Strings.Numbers.{IsDigit}

-- Hours and minutes are in range. The seconds need not be.
pub record IsClock (c : Clock) : Type 0 where
  pub hours : c.hour < 24
  pub minutes : c.min < 60

abbrev pub seconds : Clock → ℕ
seconds c = (c.hour * 60 + c.min) * 60 + c.sec

increment-IsClock : (c : Clock) → IsClock c → IsClock (increment c)
unfolding increment
increment-IsClock c is =
    let h = is.hours in
    let m = is.minutes in record { hours = ground arith; minutes = ground arith }

set_clock-IsClock : (bytes : ℕ → ℕ) (c : Clock) → IsClock c → IsClock (set_clock bytes c).0
unfolding set_clock
set_clock-IsClock bytes c is = elim (Bool-cases (is_good_format bytes)) [
  | inr bad ↦ rw bad is
  | inl good ↦ rw good (record { hours = ground arith; minutes = ground arith })
]

-- From a clock with hours below 24 and minutes below 60, every message leaves hours below 24 and
-- minutes below 60.
pub on_message-IsClock :
    (sender_pid : ℕ) (bytes : ℕ → ℕ) (c : Clock)
    → IsClock c
    → IsClock (on_message sender_pid bytes c).0
unfolding on_message
on_message-IsClock sender_pid bytes c is =
    elim (Bool-cases ((sender_pid == kcd_pid) && (bytes 1 == 0x53))) [
      | inl s ↦ rw s (set_clock-IsClock bytes c is)
      | inr s ↦ elim (Bool-cases ((sender_pid == kcd_pid) && (bytes 1 == 0x43))) [
        | inl g ↦ rw (s, g) is
        | inr g ↦ elim (Bool-cases ((sender_pid == kcd_pid) && (bytes 1 == 0x54))) [
          | inl t ↦ rw (s, g, t) (record { hours = is.hours; minutes = is.minutes })
          | inr t ↦ elim (Bool-cases ((sender_pid == timer_pid) && c.wall_clock_on)) [
            | inl u ↦ rw (s, g, t, u) (increment-IsClock c is)
            | inr u ↦ rw (s, g, t, u) is
          ]
        ]
      ]
    ]

-- A tick adds a second to a time of day that is in range, modulo a day, and leaves one in range.
pub seconds-increment :
    (c : Clock)
    → c.hour < 24
    → c.min < 60
    → c.sec < 60
    → (seconds (increment c) ≡ (seconds c + 1) % 86400)
      × ((increment c).hour < 24)
      × ((increment c).min < 60)
      × ((increment c).sec < 60)
unfolding increment
seconds-increment c h m s = ground arith

-- The command `WS`, six digits and two bytes of any kind between them, from the keyboard decoder
-- turns a clock that is off on exactly when the hours are below 24 and the minutes below 60, whatever
-- the seconds.
pub on_message_iff :
    (bytes : ℕ → ℕ) (c : Clock)
    → bytes 1 ≡ 0x53
    → IsDigit (bytes 2)
    → IsDigit (bytes 3)
    → IsDigit (bytes 5)
    → IsDigit (bytes 6)
    → IsDigit (bytes 8)
    → IsDigit (bytes 9)
    → c.wall_clock_on ≡ false
    → ((on_message kcd_pid bytes c).0.wall_clock_on ≡ true)
      ↔ ((two_digits (bytes 2) (bytes 3) < 24) × (two_digits (bytes 5) (bytes 6) < 60))
unfolding on_message set_clock
on_message_iff bytes c command d2 d3 d5 d6 d8 d9 off = ground arith
