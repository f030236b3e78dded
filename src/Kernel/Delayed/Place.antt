-- ===== src/Kernel/Delayed/Place.antt =====
-- `kernel_delayed_send` of kernel/primitives.c: what the four cases behind its loop write.
use door_rtos.Base.{ℕ, ◌-◌, ◌≡◌, ◌≢◌, refl, arith, Ptr, null, write}
use door_rtos.Message.{Messages, delayed_send_queue}
use door_rtos.Queue.{queue, is_empty, enqueue}
use door_rtos.Kernel.Monad.{Kernel, Run, done}
use door_rtos.Kernel.Queues.{enqueue_message}
use door_rtos.Kernel.Process.{update_mess}
use door_rtos.Kernel.Delayed.{place, set_delay}

-- What `place` writes: the delays of the new message and of the one behind it, the two links at
-- the place, and the head if the message is the first.
pub record IsPlaced (e : Ptr) (n : ℕ) (prev ptr : Ptr) (k k' : Kernel) : Type 0 where
  pub delay_new : (k'.messages e).delay ≡ n
  pub delay_behind : ptr ≢ null → (k'.messages ptr).delay ≡ (k.messages ptr).delay - n
  pub delay_other : (a : Ptr) → a ≢ e → a ≢ ptr → (k'.messages a).delay ≡ (k.messages a).delay
  pub link_new : k'.mess_next e ≡ ptr
  pub link_before : prev ≢ null → k'.mess_next prev ≡ e
  pub link_other : (a : Ptr) → a ≢ e → a ≢ prev → k'.mess_next a ≡ k.mess_next a
  pub head_new : prev ≡ null → (k'.mess_queues delayed_send_queue).head ≡ e
  pub head_old :
      prev ≢ null
      → (k'.mess_queues delayed_send_queue).head ≡ (k.mess_queues delayed_send_queue).head

abbrev pub Placed : (e : Ptr) (n : ℕ) (prev ptr : Ptr) → Kernel → Run (Unit {0}) → Type 0
Placed e n prev ptr k r = (k' : Kernel) × (r ≡ done tt k') × IsPlaced e n prev ptr k k'

module _ (e : Ptr) (n : ℕ) (k : Kernel) (ne : e ≢ null) where
  pub place_only :
      (k.mess_queues delayed_send_queue).head ≡ null
      → Placed e n null null k (place e n null null k)
  unfolding place update_mess enqueue_message enqueue is_empty write
  place_only h = (
    record k {
      messages = write k.messages e (set_delay n (k.messages e));
      mess_next = write k.mess_next e null;
      mess_queues = write k.mess_queues delayed_send_queue (queue e e);
    },
    ground arith,
    record {
      delay_new = ground arith;
      delay_behind = λ t. absurd (t refl);
      delay_other = λ a h h'. ground arith;
      link_new = ground arith;
      link_before = λ t. absurd (t refl);
      link_other = λ a h h'. ground arith;
      head_new = λ t. ground arith;
      head_old = λ t. absurd (t refl);
    },
  )

  pub place_first :
      (ptr : Ptr) → ptr ≢ null → ptr ≢ e → Placed e n null ptr k (place e n null ptr k)
  unfolding place update_mess write
  place_first ptr p q = (
    record k {
      messages =
          (let cut : Messages =
              write k.messages ptr (set_delay ((k.messages ptr).delay - n) (k.messages ptr)) in
            write cut e (set_delay n (cut e)));
      mess_next = write k.mess_next e ptr;
      mess_queues =
          write k.mess_queues delayed_send_queue (queue e (k.mess_queues delayed_send_queue).tail);
    },
    ground arith,
    record {
      delay_new = ground arith;
      delay_behind = λ t. ground arith;
      delay_other = λ a h h'. ground arith;
      link_new = ground arith;
      link_before = λ t. absurd (t refl);
      link_other = λ a h h'. ground arith;
      head_new = λ t. ground arith;
      head_old = λ t. absurd (t refl);
    },
  )

  pub place_last :
      (prev : Ptr) → prev ≢ null → prev ≢ e → Placed e n prev null k (place e n prev null k)
  unfolding place update_mess write
  place_last prev p q = (
    record k {
      messages = write k.messages e (set_delay n (k.messages e));
      mess_next = write (write k.mess_next e null) prev e;
    },
    ground arith,
    record {
      delay_new = ground arith;
      delay_behind = λ t. absurd (t refl);
      delay_other = λ a h h'. ground arith;
      link_new = ground arith;
      link_before = λ t. ground arith;
      link_other = λ a h h'. ground arith;
      head_new = λ t. absurd (p t);
      head_old = λ t. refl;
    },
  )

  pub place_between :
      (prev ptr : Ptr)
      → prev ≢ null
      → ptr ≢ null
      → prev ≢ e
      → ptr ≢ e
      → Placed e n prev ptr k (place e n prev ptr k)
  unfolding place update_mess write
  place_between prev ptr p p' q q' = (
    record k {
      messages =
          (let cut : Messages =
              write k.messages ptr (set_delay ((k.messages ptr).delay - n) (k.messages ptr)) in
            write cut e (set_delay n (cut e)));
      mess_next = write (write k.mess_next prev e) e ptr;
    },
    ground arith,
    record {
      delay_new = ground arith;
      delay_behind = λ t. ground arith;
      delay_other = λ a h h'. ground arith;
      link_new = ground arith;
      link_before = λ t. ground arith;
      link_other = λ a h h'. ground arith;
      head_new = λ t. absurd (p t);
      head_old = λ t. refl;
    },
  )
