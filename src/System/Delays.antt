-- ===== src/System/Delays.antt =====
-- Delayed sends in a kernel that runs (kernel/primitives.c).
use door_rtos.Base.{
  ℕ, ◌^◌, ◌≤◌, ◌<◌, ◌≡◌, ◌≢◌, sym, refl, ◌∙◌, ap, inl, inr, Bool-cases, List, arith, true, false,
  ◌&&◌, leb, ◌==◌, Ptr, null, Outcome, ok, fault, out_of_fuel, length, ◌∉◌,
}
use native.Mathlib.Decide.{dec_lt}
use mathlib.Core.Path.{subst}
use door_rtos.Task.{rtx_error}
use door_rtos.Message.{Mess, delayed_send_queue}
use door_rtos.Queue.{enqueue}
use door_rtos.MetaQueue.Invariant.{Lists}
use door_rtos.Kernel.Monad.{
  Kernel, Run, done, switched, crashed, stuck, M, and_then, lift_to, walk_fuel,
}
use door_rtos.Kernel.Queues.{enqueue_message}
use door_rtos.Kernel.Process.{update_mess}
use door_rtos.Kernel.Delayed.{find_place, place, insert_delayed, kernel_delayed_send}
use door_rtos.Kernel.Delayed.Insert.{IsDelayed}
use door_rtos.Kernel.Delayed.Send.{kernel_delayed_send-insert_due}
use door_rtos.Kernel.Primitives.Send.{addressed}
use door_rtos.System.Running.{IsRunning, Keeps, Keeps-done}
use door_rtos.System.Messages.{with_messages, with_messages-IsRunning}

-- `k` with the messages of `k'`.
abbrev mixed : (k' k : Kernel) → Kernel
mixed k' k = with_messages k'.messages k'.mess_next k'.mess_queues k'.swi k

-- Code that changes at most messages and their queues.
abbrev Touches : {A : Type 0} → Kernel → Run A → Type 0
Touches k (done a k') = k' ≡ mixed k' k
Touches k (switched k') = ⊥
Touches k crashed = Unit
Touches k stuck = Unit

Touches-trans :
    {A : Type 0} (k k' : Kernel) (r : Run A) → k' ≡ mixed k' k → Touches k' r → Touches k r
Touches-trans k k' (done a k'') e t = t ∙ ap (λ z. mixed k'' z) e
Touches-trans k k' (switched k'') e t = t
Touches-trans k k' crashed e t = tt
Touches-trans k k' stuck e t = tt

Touches-and_then :
    {A B : Type 0} (k : Kernel) (r : Run A) (f : A → M B)
    → Touches k r
    → ((a : A) (k' : Kernel) → Touches k' (f a k'))
    → Touches k (and_then r f)
Touches-and_then k (done a k') f t next = Touches-trans k k' (f a k') t (next a k')
Touches-and_then k (switched k') f t next = t
Touches-and_then k crashed f t next = tt
Touches-and_then k stuck f t next = tt

update_mess-Touches : (p : Ptr) (f : Mess → Mess) (k : Kernel) → Touches k (update_mess p f k)
unfolding update_mess
update_mess-Touches p f k = elim (Bool-cases (p == null)) [ inl h ↦ rw h tt | inr h ↦ rw h refl ]

Touches-lift_to :
    {A B : Type 0} (k : Kernel) (o : Outcome A) (g : A → M B)
    → ((a : A) → Touches k (g a k))
    → Touches k (lift_to o g k)
Touches-lift_to k (ok a) g t = t a
Touches-lift_to k fault g t = tt
Touches-lift_to k out_of_fuel g t = tt

enqueue_message-Touches : (a e : Ptr) (k : Kernel) → Touches k (enqueue_message a e k)
unfolding enqueue_message
enqueue_message-Touches a e k = elim (Bool-cases (a == null)) [
  | inl h ↦ rw h tt
  | inr h ↦ rw h (Touches-lift_to k (enqueue (k.mess_queues a) e k.mess_next) _ (λ r. refl))
]

place-Touches :
    (envelope : Ptr) (delay : ℕ) (prev_ptr ptr : Ptr) (k : Kernel)
    → Touches k (place envelope delay prev_ptr ptr k)
unfolding place
place-Touches envelope delay prev_ptr ptr k =
    elim (Bool-cases ((ptr == null) && (prev_ptr == null))) [
      | inl a ↦ rw a (
          Touches-and_then k (update_mess _ _ k) _ (update_mess-Touches _ _ k)
            (λ u k'. enqueue_message-Touches _ _ k'))
      | inr a ↦ elim (Bool-cases (prev_ptr == null)) [
        | inl b ↦
            rw (a, b)
              (Touches-and_then k (update_mess _ _ k) _ (update_mess-Touches _ _ k) (λ u k'.
                Touches-and_then k' (update_mess _ _ k') _ (update_mess-Touches _ _ k')
                  (λ u k''. refl)))
        | inr b ↦ elim (Bool-cases (ptr == null)) [
          | inl c ↦
              rw (a, b, c)
                (Touches-and_then k (update_mess _ _ k) _ (update_mess-Touches _ _ k)
                  (λ u k'. refl))
          | inr c ↦
              rw (a, b, c)
                (Touches-and_then k (update_mess _ _ k) _ (update_mess-Touches _ _ k) (λ u k'.
                  Touches-and_then k' (update_mess _ _ k') _ (update_mess-Touches _ _ k')
                    (λ u k''. refl)))
        ]
      ]
    ]

insert_delayed-Touches :
    (envelope : Ptr) (delay : ℕ) (k : Kernel) → Touches k (insert_delayed envelope delay k)
unfolding insert_delayed
insert_delayed-Touches envelope delay k =
    Touches-lift_to k
      (find_place walk_fuel delay null (k.mess_queues delayed_send_queue).head k.messages
        k.mess_next)
      _ (λ (delay', prev_ptr, ptr). place-Touches envelope delay' prev_ptr ptr k)

delayed_send-Touches :
    (process_id e n : ℕ) (k : Kernel) → n ≢ 0 → Touches k (kernel_delayed_send process_id e n k)
unfolding kernel_delayed_send
delayed_send-Touches process_id e n k ne =
    let some : (n == 0) ≡ false = ground arith in
    elim (Bool-cases (leb (2 ^ 31) n)) [
      | inl h ↦
          rw (some, h)
            (Touches-and_then k (update_mess _ _ k) _ (update_mess-Touches _ _ k) (λ u k'. refl))
      | inr h ↦
          rw (some, h)
            (Touches-and_then k (update_mess _ _ k) _ (update_mess-Touches _ _ k) (λ u k'.
              Touches-and_then k' (insert_delayed _ _ k') _ (insert_delayed-Touches _ _ k')
                (λ v k''. refl)))
    ]

Keeps-Touches :
    {A : Type 0} {a : A} {k' : Kernel} (k : Kernel) (rs ws : Lists) (r : Run A)
    → r ≡ done a k'
    → Touches k r
    → IsRunning k rs ws
    → Keeps r
Keeps-Touches {k'} k rs ws r e t is =
    let t' = rw e at t in
    Keeps-done rs ws e (
      subst (λ z. IsRunning z rs ws) (sym t')
        (with_messages-IsRunning k'.messages k'.mess_next k'.mess_queues k'.swi is))

refused-eq :
    (process_id e n : ℕ) (k : Kernel)
    → e ≢ null
    → 2 ^ 31 ≤ n
    → kernel_delayed_send process_id e n k ≡ done rtx_error (addressed process_id e k)
unfolding kernel_delayed_send update_mess
refused-eq process_id e n k ne h =
    let here : (e == null) ≡ false = ground arith in
    let negative : leb (2 ^ 31) n ≡ true = ground arith in rw (here, negative) refl

-- In a kernel that runs, `kernel_delayed_send` with a delay other than 0 of a message that is not
-- NULL and not delayed yet, when fewer messages are delayed than the walk has fuel for, returns in
-- a kernel that runs, for a negative delay too.
pub kernel_delayed_send-Keeps :
    {k : Kernel} {rs ws : Lists} (process_id e n : ℕ) (xs : List Ptr)
    → IsRunning k rs ws
    → IsDelayed k xs
    → length xs < walk_fuel
    → e ≢ null
    → e ∉ xs
    → n ≢ 0
    → Keeps (kernel_delayed_send process_id e n k)
kernel_delayed_send-Keeps {k} {rs} {ws} process_id e n xs is delayed h ne out pos =
    let touches = delayed_send-Touches process_id e n k pos in
    elim (dec_lt n (2 ^ 31)) [
      | no large ↦ Keeps-Touches k rs ws _ (refused-eq process_id e n k ne (omega arith)) touches is
      | yes small ↦
          let (k', ys, r, delayed', due) =
            kernel_delayed_send-insert_due process_id e n k xs delayed h ne out (omega arith)
              small in
          Keeps-Touches k rs ws _ r touches is
    ]
