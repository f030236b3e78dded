-- ===== src/Process/ProcessC.antt =====
-- The first test consumer (process/process_c1.c): what it does with a message. It handles messages
-- one by one; while it waits for its own delayed message it puts the others into a queue of its
-- own, which it empties before it receives again. The prints to the debug port are left out.
pub mod Order
use door_rtos.Base.{
  ℕ, zero, suc, ◌%◌, ◌*◌, ◌+◌, Bool, true, false, ◌&&◌, ◌==◌, if◌then◌else◌, List, [], ◌∷◌, ◌++◌,
  Ptr, null, Links, Outcome, ok, out_of_fuel, ◌>>=◌, ◌>>◌, write,
}
use door_rtos.Queue.{Queue, is_empty, enqueue, dequeue_fifo}
use door_rtos.Message.{Mess, Messages}
use door_rtos.Kernel.Monad.{walk_fuel}

abbrev pub count_report : ℕ
count_report = 0x10

abbrev pub wakeup10 : ℕ
wakeup10 = 0x11

-- The queue of the process with the links and the envelopes, which all processes share.
pub record ProcessC : Type 0 where
  pub msg_queue_c1 : Queue
  pub mess_next : Links
  pub messages : Messages
  -- It is in the inner loop.
  pub sleeps : Bool

pub data Action : Type 0 where
  -- A block is requested, and nothing is done with it.
  unused_block : Action
  -- The text "Process C" is sent to the CRT process.
  print_name : Action
  -- The message is sent to the process itself in 100 ticks.
  delay_100 : Ptr → Action
  -- The message is released, and then the processor.
  release : Ptr → Action

-- The first four bytes of the data, the highest one first.
abbrev pub num_of : Mess → ℕ
num_of m = ((m.content 0 * 0x100 + m.content 1) * 0x100 + m.content 2) * 0x100 + m.content 3

abbrev pub is_twentieth : Mess → Bool
is_twentieth m = (m.kind == count_report) && (num_of m % 20 == 0)

abbrev pub sleep_on : Ptr → ProcessC → ProcessC
sleep_on p c = record c {
  messages = write c.messages p (record (c.messages p) { kind = wakeup10 });
  sleeps = true;
}

-- The rest of a round of the outer loop, for its message.
unfoldable pub handle : Ptr → ProcessC → ProcessC × List Action
handle p c =
    if is_twentieth (c.messages p)
    then (sleep_on p c, unused_block ∷ print_name ∷ delay_100 p ∷ [])
    else (c, release p ∷ [])

abbrev pub after : List Action → ProcessC × List Action → ProcessC × List Action
after acts (c, more) = (c, acts ++ more)

-- Rounds of the outer loop, up to the next call of `receive_message`.
unfoldable pub rounds : ℕ → ProcessC → Outcome (ProcessC × List Action)
rounds zero c = out_of_fuel
rounds (suc fuel) c =
    if c.sleeps then ok (c, []) else if is_empty c.msg_queue_c1 then ok (c, []) else (do
      (p, q, next) ← dequeue_fifo walk_fuel c.msg_queue_c1 c.mess_next
      let (c', acts) = handle p (record c { msg_queue_c1 = q; mess_next = next })
      r ← rounds fuel c'
      ok (after acts r))

-- The queue has at most as many elements as there are blocks.
abbrev pub rounds_fuel : ℕ
rounds_fuel = 257

-- What happens from a message that is received up to the next one.
unfoldable pub on_message : Ptr → ProcessC → Outcome (ProcessC × List Action)
on_message p c =
    if c.sleeps
    then if (c.messages p).kind == wakeup10
      then (rounds rounds_fuel (record c { sleeps = false }) >>= λ r. ok (after (release p ∷ []) r))
      else (enqueue c.msg_queue_c1 p c.mess_next >>= λ (q, next).
          ok (record c { msg_queue_c1 = q; mess_next = next }, []))
    else (let (c', acts) = handle p c in rounds rounds_fuel c' >>= λ r. ok (after acts r))
