-- ===== src/Process/ProcessC2.antt =====
-- The second test consumer (process/process_c2.c): what it does with a message. It handles messages
-- like the first one, but sleeps on a block of its own, and its queue takes what comes meanwhile.
use door_rtos.Base.{
  ℕ, zero, suc, Bool, true, false, ◌==◌, if◌then◌else◌, List, [], ◌∷◌, ◌++◌, Ptr, Links, Outcome,
  ok, out_of_fuel, ◌>>=◌, write,
}
use door_rtos.Queue.{Queue, is_empty, enqueue, dequeue_fifo}
use door_rtos.Message.{Messages}
use door_rtos.Kernel.Monad.{walk_fuel}
use door_rtos.Process.ProcessC.{wakeup10, is_twentieth, rounds_fuel}

pub record ProcessC2 : Type 0 where
  pub msg_queue_c2 : Queue
  pub mess_next : Links
  pub messages : Messages
  -- The block that it sends to itself.
  pub q : Ptr
  -- It is in the inner loop.
  pub sleeps : Bool

pub data Action : Type 0 where
  -- The name of the process is sent to the CRT process, as a text.
  print_name : Action
  -- The message is sent to the process itself in 100 ticks.
  delay_100 : Ptr → Action
  release : Ptr → Action

-- A round of the outer loop for its message, which is not released when the process sleeps.
unfoldable pub handle : Ptr → ProcessC2 → ProcessC2 × List Action
handle p c =
    if is_twentieth (c.messages p)
    then (
      record c {
        messages = write c.messages c.q (record (c.messages c.q) { kind = wakeup10 });
        sleeps = true;
      },
      print_name ∷ delay_100 c.q ∷ [],
    )
    else (c, release p ∷ [])

abbrev pub after : List Action → ProcessC2 × List Action → ProcessC2 × List Action
after acts (c, more) = (c, acts ++ more)

-- Rounds of the outer loop, up to the next call of `receive_message`.
unfoldable pub rounds : ℕ → ProcessC2 → Outcome (ProcessC2 × List Action)
rounds zero c = out_of_fuel
rounds (suc fuel) c =
    if c.sleeps then ok (c, []) else if is_empty c.msg_queue_c2 then ok (c, []) else (do
      (p, q, next) ← dequeue_fifo walk_fuel c.msg_queue_c2 c.mess_next
      let (c', acts) = handle p (record c { msg_queue_c2 = q; mess_next = next })
      r ← rounds fuel c'
      ok (after acts r))

-- What happens from a message that is received up to the next one.
unfoldable pub on_message : Ptr → ProcessC2 → Outcome (ProcessC2 × List Action)
on_message p c =
    if c.sleeps
    then if (c.messages p).kind == wakeup10
      then rounds rounds_fuel (record c { q = p; sleeps = false })
      else (enqueue c.msg_queue_c2 p c.mess_next >>= λ (q', next).
          ok (record c { msg_queue_c2 = q'; mess_next = next; q = p }, []))
    else (let (c', acts) = handle p c in rounds rounds_fuel c' >>= λ r. ok (after acts r))
