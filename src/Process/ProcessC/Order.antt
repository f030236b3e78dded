-- ===== src/Process/ProcessC/Order.antt =====
-- The order in which the first test consumer (process/process_c1.c) handles what came while it slept.
use door_rtos.Base.{
  ℕ, zero, suc, ◌≤◌, ◌≡◌, refl, sym, ◌∙◌, ap, Bool, true, false, Bool-cases, inl, inr, ◌==◌,
  if◌then◌else◌, List, [], ◌∷◌, reverse, length, length-front, last, front, reverse-last, Ptr, ok,
  arith, ◌>>=◌,
}
use door_rtos.Queue.{Queue, is_empty}
use door_rtos.Queue.Chain.{IsQueue}
use door_rtos.Queue.Fifo.{dequeue_fifo-Taken}
use door_rtos.Message.{Messages}
use door_rtos.Kernel.Monad.{walk_fuel}
use door_rtos.Process.ProcessC.{
  ProcessC, Action, unused_block, print_name, delay_100, release, wakeup10, is_twentieth, sleep_on,
  handle, after, rounds, on_message,
}

-- What is done with messages in this order, up to the first that makes the process sleep.
abbrev pub handled : Messages → List Ptr → List Action
handled m [] = []
handled m (p ∷ ps) =
    let rest = handled m ps in
    if is_twentieth (m p) then unused_block ∷ print_name ∷ delay_100 p ∷ [] else release p ∷ rest

-- Those behind it.
abbrev pub left_over : Messages → List Ptr → List Ptr
left_over m [] = []
left_over m (p ∷ ps) = let rest = left_over m ps in if is_twentieth (m p) then ps else rest

abbrev pub has_twentieth : Messages → List Ptr → Bool
has_twentieth m [] = false
has_twentieth m (p ∷ ps) =
    let rest = has_twentieth m ps in if is_twentieth (m p) then true else rest

-- The messages of `ps` have been handled in their order: `ys` are left, the newest first.
pub record Handled (m : Messages) (ps ys : List Ptr) (c' : ProcessC) : Type 0 where
  pub queue : IsQueue c'.mess_next c'.msg_queue_c1 ys
  pub left : reverse ys ≡ left_over m ps
  pub sleeps : c'.sleeps ≡ has_twentieth m ps

rounds-nil :
    (fuel : ℕ) (c : ProcessC)
    → c.sleeps ≡ false
    → IsQueue c.mess_next c.msg_queue_c1 []
    → rounds (suc fuel) c ≡ ok (c, [])
unfolding rounds is_empty
rounds-nil fuel c awake is = ground (arith, awake, is.chain)

rounds-asleep : (fuel : ℕ) (c : ProcessC) → c.sleeps ≡ true → rounds (suc fuel) c ≡ ok (c, [])
unfolding rounds
rounds-asleep fuel c e = rw e refl

-- The state after a message has been taken.
abbrev taken : Queue → (Ptr → Ptr) → ProcessC → ProcessC
taken q next c = record c { msg_queue_c1 = q; mess_next = next }

rounds-cons :
    (fuel : ℕ) (c : ProcessC) (x : Ptr) (xs : List Ptr)
    → c.sleeps ≡ false
    → IsQueue c.mess_next c.msg_queue_c1 (x ∷ xs)
    → length xs ≤ walk_fuel
    → (q : Queue) × (next : Ptr → Ptr) × (rounds (suc fuel) c ≡ (
        rounds fuel (handle (last x xs) (taken q next c)).0 >>= λ r.
        ok (after (handle (last x xs) (taken q next c)).1 r)))
      × IsQueue next q (front x xs)
unfolding rounds is_empty
rounds-cons fuel c x xs awake is h =
    let (q, next, r, is', same) =
      dequeue_fifo-Taken walk_fuel c.mess_next c.msg_queue_c1 x xs is h in
    let full : is_empty c.msg_queue_c1 ≡ false = ground (arith, is.chain.0, is.chain.1) in
    (q, next, rw (awake, full, r) refl, is')

handle-twentieth :
    (p : Ptr) (c : ProcessC)
    → is_twentieth (c.messages p) ≡ true
    → handle p c ≡ (sleep_on p c, unused_block ∷ print_name ∷ delay_100 p ∷ [])
unfolding handle
handle-twentieth p c e = rw e refl

handle-other :
    (p : Ptr) (c : ProcessC)
    → is_twentieth (c.messages p) ≡ false
    → handle p c ≡ (c, release p ∷ [])
unfolding handle
handle-other p c e = rw e refl

-- What `handled` and the others say of a message in front.
Handled-twentieth :
    (m : Messages) (p : Ptr) (ps ys : List Ptr) (c' : ProcessC)
    → is_twentieth (m p) ≡ true
    → IsQueue c'.mess_next c'.msg_queue_c1 ys
    → reverse ys ≡ ps
    → c'.sleeps ≡ true
    → Handled m (p ∷ ps) ys c'
Handled-twentieth m p ps ys c' e is r s = record { queue = is; left = rw e r; sleeps = rw e s }

Handled-other :
    (m : Messages) (p : Ptr) (ps ys : List Ptr) (c' : ProcessC)
    → is_twentieth (m p) ≡ false
    → Handled m ps ys c'
    → Handled m (p ∷ ps) ys c'
Handled-other m p ps ys c' e h = record {
  queue = h.queue;
  left = rw e h.left;
  sleeps = rw e h.sleeps;
}

handled-twentieth :
    (m : Messages) (p : Ptr) (ps : List Ptr)
    → is_twentieth (m p) ≡ true
    → handled m (p ∷ ps) ≡ unused_block ∷ print_name ∷ delay_100 p ∷ []
handled-twentieth m p ps e = rw e refl

handled-other :
    (m : Messages) (p : Ptr) (ps : List Ptr)
    → is_twentieth (m p) ≡ false
    → handled m (p ∷ ps) ≡ release p ∷ handled m ps
handled-other m p ps e = rw e refl

rounds-Handled :
    (fuel : ℕ) (c : ProcessC) (xs : List Ptr)
    → c.sleeps ≡ false
    → IsQueue c.mess_next c.msg_queue_c1 xs
    → length xs ≤ fuel
    → length xs ≤ 256
    → (c' : ProcessC) × (ys : List Ptr) × (rounds (suc fuel) c
        ≡ ok (c', handled c.messages (reverse xs)))
      × Handled c.messages (reverse xs) ys c'
unfolding walk_fuel
rounds-Handled fuel c [] awake is small few =
    (c, [], rounds-nil fuel c awake is, record { queue = is; left = refl; sleeps = awake })
rounds-Handled zero c (x ∷ xs) awake is small few = absurd (omega arith)
rounds-Handled (suc fuel) c (x ∷ xs) awake is small few =
    let p = last x xs in
    let m = c.messages in
    let (q, next, r, is') = rounds-cons (suc fuel) c x xs awake is (omega arith) in
    let order = reverse-last x xs in
    let c1 = taken q next c in
    elim (Bool-cases (is_twentieth (m p))) [
      | inl e ↦
          let c2 = sleep_on p c1 in
          (
            c2,
            front x xs,
            r
                ∙ ap (λ z. rounds (suc fuel) z.0 >>= λ r. ok (after z.1 r))
                    (handle-twentieth p c1 e)
                ∙ ap (λ z. z >>= λ r. ok (after (unused_block ∷ print_name ∷ delay_100 p ∷ []) r))
                    (rounds-asleep fuel c2 refl)
                ∙ ap (λ l. ok (c2, l)) (sym (ap (handled m) order ∙ handled-twentieth m p _ e)),
            rw order (Handled-twentieth m p _ (front x xs) c2 e is' refl refl),
          )
      | inr e ↦
          let (c2, ys, r', h) =
            rounds-Handled fuel c1 (front x xs) awake is' (omega (arith, length-front x xs))
              (omega (arith, length-front x xs)) in
          (
            c2,
            ys,
            r
                ∙ ap (λ z. rounds (suc fuel) z.0 >>= λ r. ok (after z.1 r)) (handle-other p c1 e)
                ∙ ap (λ z. z >>= λ r. ok (after (release p ∷ []) r)) r'
                ∙ ap (λ l. ok (c2, l)) (sym (ap (handled m) order ∙ handled-other m p _ e)),
            rw order (Handled-other m p _ ys c2 e h),
          )
    ]

-- When its own message wakes the process, and at most 256 messages came while it slept, it
-- returns to receiving: the wake-up is released, the others are handled in the order in which they
-- came, up to the first that makes it sleep again, and those behind that one stay queued in order.
pub on_message-Handled :
    (p : Ptr) (c : ProcessC) (xs : List Ptr)
    → c.sleeps ≡ true
    → (c.messages p).kind ≡ wakeup10
    → IsQueue c.mess_next c.msg_queue_c1 xs
    → length xs ≤ 256
    → (c' : ProcessC) × (ys : List Ptr) × (on_message p c
        ≡ ok (c', release p ∷ handled c.messages (reverse xs)))
      × Handled c.messages (reverse xs) ys c'
unfolding on_message
on_message-Handled p c xs asleep wakes is few =
    let (c', ys, r, h) = rounds-Handled 256 (record c { sleeps = false }) xs refl is few few in
    let e : ((c.messages p).kind == wakeup10) ≡ true = ground arith in
    (c', ys, rw (asleep, e, r) refl, h)
