-- ===== src/Kernel/Delayed.antt =====
-- The queue of delayed messages (`kernel_delayed_send` of kernel/primitives.c): each message holds
-- the ticks between the one before it and itself.
pub mod Due
pub mod Place
pub mod Insert
pub mod Send
use door_rtos.Base.{
  ℕ, zero, suc, ◌+◌, ◌-◌, ◌^◌, Bool, true, false, ◌&&◌, ◌==◌, ltb, leb, if◌then◌else◌, Ptr, null,
  Links, Outcome, ok, fault, out_of_fuel, write,
}
use door_rtos.Task.{rtx_success, rtx_error}
use door_rtos.Message.{Mess, Messages, delayed_send_queue}
use door_rtos.Queue.{Queue, queue}
use door_rtos.Kernel.Monad.{Kernel, M, done, walk_fuel, pure, gets, modify, skip, lift, ◌>>=◌, ◌>>◌}
use door_rtos.Kernel.Queues.{enqueue_message}
use door_rtos.Kernel.Process.{current, update_mess}
use door_rtos.Kernel.Primitives.{kernel_send_message}

-- `while (ptr != NULL && delay > ptr->delay)`, with what is left of the delay, and the two
-- neighbours of the place found.
unfoldable pub find_place :
    ℕ → (delay : ℕ) → (prev_ptr ptr : Ptr) → Messages → Links → Outcome (ℕ × Ptr × Ptr)
find_place zero delay prev_ptr ptr messages next = out_of_fuel
find_place (suc fuel) delay prev_ptr ptr messages next =
    let rest = find_place fuel (delay - (messages ptr).delay) ptr (next ptr) messages next in
    if ptr == null
    then ok (delay, prev_ptr, ptr)
    else if ltb (messages ptr).delay delay
    then rest
    else ok (delay, prev_ptr, ptr)

abbrev pub set_delay : ℕ → Mess → Mess
set_delay n m = record m { delay = n }

abbrev pub set_next : Ptr → Ptr → M (Unit {0})
set_next p q = modify λ k. record k { mess_next = write k.mess_next p q }

-- `delayed_send_queue->head = p`
abbrev pub set_delayed_head : Ptr → M (Unit {0})
set_delayed_head p = modify λ k. record k {
  mess_queues =
      write k.mess_queues delayed_send_queue (queue p (k.mess_queues delayed_send_queue).tail);
}

-- The four cases behind the loop: the queue is empty, in front of the first message, behind the
-- last one, between two.
unfoldable pub place : (envelope : Ptr) (delay : ℕ) (prev_ptr ptr : Ptr) → M (Unit {0})
place envelope delay prev_ptr ptr =
    if (ptr == null) && (prev_ptr == null)
    then update_mess envelope (set_delay delay) >> enqueue_message delayed_send_queue envelope
    else if prev_ptr == null
    then (do
      update_mess ptr (λ m. set_delay (m.delay - delay) m)
      update_mess envelope (set_delay delay)
      set_next envelope ptr
      set_delayed_head envelope)
    else if ptr == null
    then (do
      update_mess envelope (set_delay delay)
      set_next envelope null
      set_next prev_ptr envelope)
    else (do
      update_mess ptr (λ m. set_delay (m.delay - delay) m)
      update_mess envelope (set_delay delay)
      set_next prev_ptr envelope
      set_next envelope ptr)

unfoldable pub insert_delayed : (envelope : Ptr) (delay : ℕ) → M (Unit {0})
insert_delayed envelope delay =
    lift
      (λ k.
        find_place walk_fuel delay null (k.mess_queues delayed_send_queue).head k.messages
          k.mess_next)
      λ (delay', prev_ptr, ptr). place envelope delay' prev_ptr ptr

-- `delay` is the bit pattern of an `int`, negative from `2 ^ 31` on.
unfoldable pub kernel_delayed_send : (process_id : ℕ) (envelope : Ptr) (delay : ℕ) → M ℕ
kernel_delayed_send process_id envelope delay = do
  source_pid ← gets λ k. (current k).pid
  update_mess envelope (λ m. record m { dest_pid = process_id; sender_pid = source_pid })
  if leb (2 ^ 31) delay
      then pure rtx_error
      else if delay == 0
      then kernel_send_message process_id envelope
      else (insert_delayed envelope delay >> pure rtx_success)
