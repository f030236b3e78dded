-- ===== src/Process/Timer.antt =====
-- The timer i-process (process/timer_i_process.c): one round of its loop, which runs at each tick
-- of the clock.
use door_rtos.Base.{ℕ, zero, suc, ◌+◌, ◌%◌, ◌^◌, ◌==◌, ltb, if◌then◌else◌, Ptr, null}
use door_rtos.Message.{Mess, delayed_send_queue}
use door_rtos.Kernel.Monad.{
  Kernel, stuck, M, walk_fuel, pure, gets, skip, lift, set_swi, ◌>>=◌, ◌>>◌,
}
use door_rtos.Kernel.Queues.{dequeue_message_lifo}
use door_rtos.Kernel.Process.{update_mess}
use door_rtos.Kernel.Primitives.{kernel_send_message, kernel_receive_message}
use door_rtos.Kernel.Delayed.{find_place, place}
use door_rtos.Kernel.Swi.{release_processor}

-- What lasts from round to round: the local `timer_count`, which hides the global one, and the
-- global `kernel_clock`.
pub record Ticks : Type 0 where
  pub timer_count : ℕ
  pub kernel_clock : ℕ

abbrev pub start : Ticks
start = record { timer_count = 0; kernel_clock = 0 }

unfoldable pub tick : Ticks → Ticks
tick t = record {
  timer_count = (t.timer_count + 1) % 2 ^ 32;
  kernel_clock = (t.kernel_clock + 1) % 2 ^ 32;
}

-- The sender becomes the receiver. The code means to swap the two, and leaves the sender.
abbrev pub return_to_sender : Mess → Mess
return_to_sender m = record m { dest_pid = m.sender_pid }

-- A message to the timer is put among the delayed ones.
unfoldable pub accept : (env_ptr : Ptr) → M (Unit {0})
accept env_ptr =
    lift
      (λ k.
        find_place walk_fuel (k.messages env_ptr).delay null (k.mess_queues delayed_send_queue).head
          k.messages k.mess_next)
      λ (delay, prev_ptr, ptr).
        update_mess env_ptr return_to_sender >> place env_ptr delay prev_ptr ptr

unfoldable pub next_message : M Ptr
next_message = do
  env_ptr ← kernel_receive_message
  set_swi λ s. record s { msg_return = 0 }
  pure env_ptr

unfoldable pub accept_all : ℕ → (env_ptr : Ptr) → M (Unit {0})
accept_all zero env_ptr = λ k. stuck
accept_all (suc fuel) env_ptr =
    if env_ptr == null
    then skip
    else (do accept env_ptr; env_ptr' ← next_message; accept_all fuel env_ptr')

abbrev pub delayed_head : Kernel → Ptr
delayed_head k = (k.mess_queues delayed_send_queue).head

-- `while (env_ptr != NULL && env_ptr->delay == timer_count)`, from the head of the queue.
unfoldable pub release_due : ℕ → (timer_count : ℕ) → M ℕ
release_due zero timer_count = λ k. stuck
release_due (suc fuel) timer_count = do
  k ← gets λ k. k
  if delayed_head k == null
      then pure timer_count
      else if (k.messages (delayed_head k)).delay == timer_count
      then (do
        env_ptr ← dequeue_message_lifo delayed_send_queue
        k ← gets λ k. k
        kernel_send_message (k.messages env_ptr).dest_pid env_ptr
        release_due fuel 0)
      else pure timer_count

-- A count past the first delay starts anew.
unfoldable pub clip : (timer_count : ℕ) → Kernel → ℕ
clip timer_count k =
    if delayed_head k == null
    then timer_count
    else if ltb (k.messages (delayed_head k)).delay timer_count
    then 0
    else timer_count

-- A round up to its last call.
unfoldable pub timer_round : Ticks → M Ticks
timer_round t = do
  let t' = tick t
  env_ptr ← next_message
  accept_all (suc walk_fuel) env_ptr
  count ← gets (clip t'.timer_count)
  count' ← release_due (suc walk_fuel) count
  pure (record t' { timer_count = count' })

unfoldable pub timer_i_process_round : (sp : Ptr) → Ticks → M Ticks
timer_i_process_round sp t = do t' ← timer_round t; release_processor sp; pure t'
