-- ===== src/Process/WallClock.antt =====
-- The wall clock (process/wall_clock_process.c): what a message does to the time of day, and what
-- the process sends then. Blocks and messages are requested and sent through the calls of the kernel.
pub mod Time
pub mod Print
use door_rtos.Base.{
  ℕ, ◌+◌, ◌-◌, ◌*◌, ◌/◌, ◌%◌, Bool, true, false, ◌&&◌, ◌==◌, ltb, leb, if◌then◌else◌, List, [], ◌∷◌,
  ◌++◌,
}
use door_rtos.Kernel.Interrupts.{timer_pid}
use door_rtos.Process.Text.{kcd_pid}

-- The locals that last from message to message.
pub record Clock : Type 0 where
  pub hour : ℕ
  pub min : ℕ
  pub sec : ℕ
  pub wall_clock_on : Bool

abbrev pub clock : ℕ → ℕ → ℕ → Bool → Clock
clock h m s on = record { hour = h; min = m; sec = s; wall_clock_on = on }

-- What the process does: with a new block, it shows a time, or asks for a tick in 100; or it
-- releases the message.
pub data Action : Type 0 where
  output_clock : List ℕ → Action
  delay_100 : Action
  release_message : Action

abbrev digits_of : ℕ → List ℕ → List ℕ
digits_of n r = ((n / 10) % 10 + 0x30) ∷ (n % 10 + 0x30) ∷ r

-- The bytes that `output_clock` stores.
abbrev pub clock_bytes : (out_hour out_min out_sec : ℕ) → List ℕ
clock_bytes h m s = 13 ∷ digits_of h (0x3a ∷ digits_of m (0x3a ∷ digits_of s (13 ∷ 0 ∷ [])))

-- A byte is read as a `signed char`, so its value as an `int` is `c - below c`.
abbrev pub below : ℕ → ℕ
below c = if leb 0x80 c then 0x100 else 0

-- `(int)(t - 0x30) * 10 + (int)(u - 0x30)` is the difference of these two.
abbrev pub above_of : (t u : ℕ) → ℕ
above_of t u = t * 10 + u

abbrev pub below_of : (t u : ℕ) → ℕ
below_of t u = (0x30 + below t) * 10 + (0x30 + below u)

abbrev pub not_negative : (t u : ℕ) → Bool
not_negative t u = leb (below_of t u) (above_of t u)

abbrev pub less_than : ℕ → (t u : ℕ) → Bool
less_than n t u = ltb (above_of t u) (below_of t u + n)

abbrev pub two_digits : (t u : ℕ) → ℕ
two_digits t u = above_of t u - below_of t u

-- The test of a time that has been typed in. The third part asks for `in_min < 60` again.
abbrev pub is_good_format : (bytes : ℕ → ℕ) → Bool
is_good_format bytes =
    (not_negative (bytes 2) (bytes 3) && less_than 24 (bytes 2) (bytes 3))
    && ((not_negative (bytes 5) (bytes 6) && less_than 60 (bytes 5) (bytes 6))
        && (not_negative (bytes 8) (bytes 9) && less_than 60 (bytes 5) (bytes 6)))

unfoldable pub set_clock : (bytes : ℕ → ℕ) → Clock → Clock × List Action
set_clock bytes c =
    let h = two_digits (bytes 2) (bytes 3) in
    let m = two_digits (bytes 5) (bytes 6) in
    let s = two_digits (bytes 8) (bytes 9) in
    if is_good_format bytes
    then (clock h m s true, output_clock (clock_bytes h m s) ∷ delay_100 ∷ [])
    else (c, [])

-- `sec++`, with what runs over.
unfoldable pub increment : Clock → Clock
increment c =
    if leb 60 (c.sec + 1)
    then if leb 60 (c.min + 1)
      then if leb 24 (c.hour + 1)
        then clock 0 0 0 c.wall_clock_on
        else clock (c.hour + 1) 0 0 c.wall_clock_on
      else clock c.hour (c.min + 1) 0 c.wall_clock_on
    else clock c.hour c.min (c.sec + 1) c.wall_clock_on

abbrev pub show : Clock → List Action → List Action
show c r = output_clock (clock_bytes c.hour c.min c.sec) ∷ r

-- The branches of the loop, for a message's sender and data: `%WS`, `%WC` and `%WT` from the
-- keyboard decoder, and a tick from the timer.
unfoldable pub on_message : (sender_pid : ℕ) (bytes : ℕ → ℕ) → Clock → Clock × List Action
on_message sender_pid bytes c =
    if (sender_pid == kcd_pid) && (bytes 1 == 0x53)
    then set_clock bytes c
    else if (sender_pid == kcd_pid) && (bytes 1 == 0x43)
    then (c, show c [])
    else if (sender_pid == kcd_pid) && (bytes 1 == 0x54)
    then (record c { wall_clock_on = false }, [])
    else if (sender_pid == timer_pid) && c.wall_clock_on
    then (increment c, show (increment c) (delay_100 ∷ []))
    else (c, [])

-- The whole body of the loop.
unfoldable pub handle_message : (sender_pid : ℕ) (bytes : ℕ → ℕ) → Clock → Clock × List Action
handle_message sender_pid bytes c =
    let (c', acts) = on_message sender_pid bytes c in (c', acts ++ release_message ∷ [])
