-- ===== src/Kernel/Delayed/Send.antt =====
-- `kernel_delayed_send` of kernel/primitives.c as a whole, for a delay that is positive.
use door_rtos.Base.{
  ℕ, ◌^◌, ◌<◌, ◌≡◌, ◌≢◌, ◌∙◌, ap, false, List, arith, leb, ◌==◌, Ptr, null, write, length, ◌∉◌,
}
use door_rtos.Task.{rtx_success}
use door_rtos.Kernel.Monad.{Kernel, done, walk_fuel}
use door_rtos.Kernel.Process.{update_mess}
use door_rtos.Kernel.Delayed.{insert_delayed, kernel_delayed_send}
use door_rtos.Kernel.Delayed.Due.{delays_of, dues, insert_due}
use door_rtos.Kernel.Delayed.Insert.{IsDelayed, insert_delayed-Inserted}
use door_rtos.Kernel.Primitives.Send.{addressed}

addressed-delay :
    (process_id e : ℕ) (k : Kernel) (a : Ptr)
    → delays_of (addressed process_id e k).messages a ≡ delays_of k.messages a
unfolding write
addressed-delay process_id e k a = ground arith

-- Filling in the header changes no delay.
addressed-delays :
    (process_id e : ℕ) (k : Kernel)
    → delays_of (addressed process_id e k).messages ≡ delays_of k.messages
addressed-delays process_id e k i a = addressed-delay process_id e k a i

delayed_send-eq :
    (process_id e n : ℕ) (k k' : Kernel)
    → e ≢ null
    → 0 < n
    → n < 2 ^ 31
    → insert_delayed e n (addressed process_id e k) ≡ done tt k'
    → kernel_delayed_send process_id e n k ≡ done rtx_success k'
unfolding kernel_delayed_send update_mess
delayed_send-eq process_id e n k k' ne pos small r =
    let sign : leb (2 ^ 31) n ≡ false = ground arith in
    let some : (n == 0) ≡ false = ground arith in
    let here : (e == null) ≡ false = ground arith in rw (here, sign, some, r)

-- `kernel_delayed_send` files a message `e` that is not NULL and not delayed yet under a delay `n`
-- that is positive as an `int`, when fewer than 256 messages are delayed. It succeeds and the queue
-- stays a chain to NULL. Where the time of a message is the sum of the stored delays up to it, `e` has
-- the time `n`, stands in front of the first message whose time is not smaller, and every other
-- message keeps its time and its place among the others. The ticks that the timer has counted since
-- its last release are no part of these times.
pub kernel_delayed_send-insert_due :
    (process_id e n : ℕ) (k : Kernel) (xs : List Ptr)
    → IsDelayed k xs
    → length xs < walk_fuel
    → e ≢ null
    → e ∉ xs
    → 0 < n
    → n < 2 ^ 31
    → (k' : Kernel) × (ys : List Ptr) × (kernel_delayed_send process_id e n k ≡ done rtx_success k')
      × IsDelayed k' ys
      × (dues (delays_of k'.messages) 0 ys ≡ insert_due e n (dues (delays_of k.messages) 0 xs))
kernel_delayed_send-insert_due process_id e n k xs is h ne out pos small =
    let (k', ys, r, is', due) =
      insert_delayed-Inserted e n (addressed process_id e k) xs is h ne out in
    (
      k',
      ys,
      delayed_send-eq process_id e n k k' ne pos small r,
      is',
      due ∙ ap (λ d. insert_due e n (dues d 0 xs)) (addressed-delays process_id e k),
    )
