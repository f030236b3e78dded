-- ===== src/Process/ProcessB/Relay.antt =====
-- What the processes that pass messages on (process/process_b1.c, process_b2.c) do with the messages
-- that wait for them.
use door_rtos.Base.{
  ℕ, zero, suc, ◌≤◌, ◌≡◌, ◌≢◌, refl, sym, ◌∙◌, ap, false, List, [], ◌∷◌, ◌++◌, length, last, front,
  length-front, not-mem-front, front-last-append, mem-last, Ptr, null, Links, ok, write, write_self,
  write_ne, ◌∉◌, arith,
}
use mathlib.Core.Path.{subst}
use door_rtos.Task.{message_wait, rtx_success, get_pcb, is_state}
use door_rtos.Queue.{Queue, enqueue}
use door_rtos.Queue.Chain.{
  IsQueue, Disjoint, Disjoint-symm, Disjoint-single, Disjoint-cons, IsQueue-frame, SameOutside,
}
use door_rtos.Queue.Fifo.{enqueue-IsQueue}
use door_rtos.Kernel.Monad.{Kernel, Swi, done, walk_fuel}
use door_rtos.Kernel.Invariant.{Chain-last}
use door_rtos.Kernel.Primitives.{kernel_send_message, kernel_receive_message}
use door_rtos.Kernel.Primitives.Send.{
  addressed, delivered, kernel_send_message-deliver, deliver_ready-eq,
}
use door_rtos.Kernel.Primitives.Receive.{inbox, received, receive-received}
use door_rtos.Kernel.Swi.{swi_trap_handler, dispatch, send_message, receive_message}
use door_rtos.Process.Uart.{receive_fuel}
use door_rtos.Process.Uart.Inbox.{trapped, receiving, receive-eq}
use door_rtos.Process.ProcessB.{pass_on, pass_all}

-- The running process has the messages `xs`, the newest first, and the process `dest_pid`, which
-- does not wait for one, has the messages `ys`.
pub record Relay (dest_pid : ℕ) (k : Kernel) (xs ys : List Ptr) : Type 0 where
  pub found : get_pcb dest_pid k.pcbs ≢ null
  pub awake : is_state message_wait (k.pcbs (get_pcb dest_pid k.pcbs)).state ≡ false
  pub has_inbox : inbox k ≢ null
  pub has_outbox : (k.pcbs (get_pcb dest_pid k.pcbs)).mess_queue ≢ null
  pub other : inbox k ≢ (k.pcbs (get_pcb dest_pid k.pcbs)).mess_queue
  pub mine : IsQueue k.mess_next (k.mess_queues (inbox k)) xs
  pub theirs : IsQueue k.mess_next (k.mess_queues (k.pcbs (get_pcb dest_pid k.pcbs)).mess_queue) ys
  pub apart : Disjoint xs ys

abbrev outbox : (dest_pid : ℕ) → Kernel → Ptr
outbox pid k = (k.pcbs (get_pcb pid k.pcbs)).mess_queue

abbrev sending : (pid : ℕ) (e : Ptr) → Swi → Swi
sending pid e s = record s { kernel_code = 1; param_1 = pid; param_2 = e }

send-eq :
    (sp : Ptr) (pid : ℕ) (e : Ptr) (k k1 : Kernel) (c : ℕ)
    → kernel_send_message pid e (trapped sp (sending pid e k.swi) k) ≡ done c k1
    → send_message sp pid e k ≡ done c (record k1 { swi = record k1.swi { ret_code = c } })
unfolding send_message swi_trap_handler dispatch
send-eq sp pid e k k1 c r = rw r refl

pass_on-eq :
    (sp : Ptr) (pid : ℕ) (k k1 k2 : Kernel) (e : Ptr) (c : ℕ)
    → receive_message receive_fuel sp null k ≡ done e k1
    → send_message sp pid e k1 ≡ done c k2
    → pass_on sp pid k ≡ done c k2
unfolding pass_on
pass_on-eq sp pid k k1 k2 e c r s = rw (r, s) refl

module _ (sp : Ptr) (pid : ℕ) (k : Kernel) (x : Ptr) (xs ys : List Ptr)
    (is : Relay pid k (x ∷ xs) ys) where
  -- After the message has been received, and after it has been sent.
  abbrev taken : Queue → Links → Kernel
  taken q next = received (inbox k) (last x xs) q next (trapped sp (receiving k) k)

  abbrev passed : (q : Queue) (next : Links) (q' : Queue) (next' : Links) → Kernel
  passed q next q' next' =
      let k1 = taken q next in
      let k2 =
        delivered (outbox pid k) q' next'
          (addressed pid (last x xs) (trapped sp (sending pid (last x xs) k1.swi) k1)) in
      record k2 { swi = record k2.swi { ret_code = rtx_success } }

  pass_on-passed :
      (q : Queue) (next : Links) (q' : Queue) (next' : Links)
      → kernel_receive_message (trapped sp (receiving k) k) ≡ done (last x xs) (taken q next)
      → enqueue (k.mess_queues (outbox pid k)) (last x xs) next ≡ ok (q', next')
      → last x xs ≢ null
      → pass_on sp pid k ≡ done rtx_success (passed q next q' next')
  pass_on-passed q next q' next' r e ne =
      let k1 = taken q next in
      let k0 = trapped sp (sending pid (last x xs) k1.swi) k1 in
      let old = write_ne k.mess_queues (inbox k) q (outbox pid k) (λ t. is.other (sym t)) in
      pass_on-eq sp pid k k1 (passed q next q' next') (last x xs) rtx_success
        (receive-eq sp k k1 (last x xs) r refl)
        (send-eq sp pid (last x xs) k1
          (delivered (outbox pid k) q' next' (addressed pid (last x xs) k0)) rtx_success
          (kernel_send_message-deliver k0 pid (last x xs) ne refl is.found
            ∙ deliver_ready-eq (addressed pid (last x xs) k0) _ (get_pcb pid k.pcbs) (last x xs) q'
                next' is.has_outbox (ap (λ m. enqueue m (last x xs) next) old ∙ e) is.awake))

  passed-Relay :
      (q : Queue) (next : Links) (q' : Queue) (next' : Links)
      → IsQueue next q (front x xs)
      → IsQueue next' q' (last x xs ∷ ys)
      → SameOutside (last x xs ∷ []) next next'
      → last x xs ∉ front x xs
      → Relay pid (passed q next q' next') (front x xs) (last x xs ∷ ys)
  passed-Relay q next q' next' mine theirs same out =
      let qs = write k.mess_queues (inbox k) q in
      let at_inbox : write qs (outbox pid k) q' (inbox k) ≡ q =
        write_ne qs (outbox pid k) q' (inbox k) is.other ∙ write_self k.mess_queues (inbox k) q in
      let at_outbox : write qs (outbox pid k) q' (outbox pid k) ≡ q' =
        write_self qs (outbox pid k) q' in
      let left : Disjoint ys (front x xs) =
        λ a i. not-mem-front a x xs (Disjoint-symm (x ∷ xs) ys is.apart a i) in
      record {
        found = is.found;
        awake = is.awake;
        has_inbox = is.has_inbox;
        has_outbox = is.has_outbox;
        other = is.other;
        mine = rw at_inbox (
            IsQueue-frame (last x xs ∷ []) (front x xs) same
              (Disjoint-single (last x xs) (front x xs) out) mine);
        theirs = rw at_outbox theirs;
        apart =
            Disjoint-symm (last x xs ∷ ys) (front x xs)
              (Disjoint-cons (last x xs) ys (front x xs) out left);
      }

  pass_on-Relay :
      length xs ≤ walk_fuel
      → (k' : Kernel) × (pass_on sp pid k ≡ done rtx_success k')
        × Relay pid k' (front x xs) (last x xs ∷ ys)
  pass_on-Relay h =
      let e = last x xs in
      let (out, ne) = Chain-last k.mess_next (k.mess_queues (inbox k)).head x xs is.mine.chain in
      let (q, next, r, mine, same) =
        receive-received (trapped sp (receiving k) k) is.has_inbox x xs is.mine h in
      let kept = IsQueue-frame (x ∷ xs) ys same (Disjoint-symm (x ∷ xs) ys is.apart) is.theirs in
      let (q', next', s, theirs, same') =
        enqueue-IsQueue next (k.mess_queues (outbox pid k)) e ys kept ne
          (is.apart e (mem-last x xs)) in
      (
        passed q next q' next',
        pass_on-passed q next q' next' r s ne,
        passed-Relay q next q' next' mine theirs same' out,
      )

pass_all-step :
    (n : ℕ) (sp : Ptr) (pid : ℕ) (k k1 : Kernel) (c : ℕ)
    → pass_on sp pid k ≡ done c k1
    → pass_all (suc n) sp pid k ≡ pass_all n sp pid k1
unfolding pass_all
pass_all-step n sp pid k k1 c r = rw r refl

none_left : (sp : Ptr) (pid : ℕ) (k : Kernel) → pass_all 0 sp pid k ≡ done tt k
unfolding pass_all
none_left sp pid k = refl

-- A process with at most 257 messages passes them on in as many rounds, in the order in which they
-- came and behind those that the receiver already has, when the receiver does not wait for a message
-- and its queue is another one.
pub pass_all-Relay :
    (sp : Ptr) (pid : ℕ) (k : Kernel) (xs ys : List Ptr)
    → Relay pid k xs ys
    → length xs ≤ suc walk_fuel
    → (k' : Kernel) × (pass_all (length xs) sp pid k ≡ done tt k') × Relay pid k' [] (xs ++ ys)
pass_all-Relay sp pid k xs ys is h = go (length xs) k xs ys refl is h
  where
    go :
        (n : ℕ) (k : Kernel) (xs ys : List Ptr)
        → length xs ≡ n
        → Relay pid k xs ys
        → length xs ≤ suc walk_fuel
        → (k' : Kernel) × (pass_all n sp pid k ≡ done tt k') × Relay pid k' [] (xs ++ ys)
    go zero k [] ys e is h = (k, none_left sp pid k, is)
    go (suc n) k [] ys e is h = absurd (omega arith)
    go zero k (x ∷ xs) ys e is h = absurd (omega arith)
    go (suc n) k (x ∷ xs) ys e is h =
        let (k1, r, is1) = pass_on-Relay sp pid k x xs ys is (omega arith) in
        let (k', r', is') =
          go n k1 (front x xs) (last x xs ∷ ys) (omega (arith, length-front x xs)) is1
            (omega (arith, length-front x xs)) in
        (
          k',
          pass_all-step n sp pid k k1 rtx_success r ∙ r',
          subst (Relay pid k' []) (front-last-append x xs ys) is',
        )
