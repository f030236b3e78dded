-- ===== src/Process/Uart/Transmit.antt =====
-- What the UART i-process (process/uart_i_process.c) does with the messages that wait for it.
use door_rtos.Base.{
  ℕ, zero, suc, ◌≤◌, ◌≡◌, ◌≢◌, refl, sym, ◌∙◌, ap, false, ◌==◌, List, [], ◌∷◌, ◌++◌, reverse,
  length, last, front, length-front, front-last-append, mem-last, reverse-last, Ptr, null, arith,
}
use mathlib.Core.Path.{subst}
use door_rtos.Task.{rtx_success}
use door_rtos.Queue.Chain.{Disjoint-symm}
use door_rtos.Message.{Messages}
use door_rtos.Kernel.Monad.{Kernel, Run, done, switched, crashed, stuck, M, and_then, walk_fuel}
use door_rtos.Kernel.Invariant.{Chain-last}
use door_rtos.Kernel.Primitives.Receive.{inbox, received}
use door_rtos.Kernel.Swi.{receive_message, release_memory_block}
use door_rtos.Process.Uart.{Serial, serial1_wd, serial1_imr, receive_fuel, transmit_from, transmit}
use door_rtos.Process.Uart.Inbox.{
  Inbox, trapped, receiving, freed, received-Inbox, none-Inbox, released-Inbox,
}

-- What the code writes for these messages.
abbrev pub written : Messages → List Ptr → List Serial
written m [] = []
written m (e ∷ es) = serial1_wd ((m e).content 0) ∷ serial1_imr 2 ∷ written m es

and_then_assoc :
    {A B C : Type 0} (r : Run A) (f : A → M B) (g : B → M C)
    → and_then (and_then r f) g ≡ and_then r (λ a k. and_then (f a k) g)
and_then_assoc (done a k) f g = refl
and_then_assoc (switched k) f g = refl
and_then_assoc crashed f g = refl
and_then_assoc stuck f g = refl

-- A round of the loop.
transmit_from-step :
    (fuel : ℕ) (sp e : Ptr) (k k1 : Kernel) (c : ℕ)
    → e ≢ null
    → release_memory_block sp e k ≡ done c k1
    → transmit_from (suc fuel) sp e k
      ≡ and_then
          (and_then (receive_message receive_fuel sp null k1) (transmit_from fuel sp))
          (λ rest. done (serial1_wd ((k.messages e).content 0) ∷ serial1_imr 2 ∷ rest))
unfolding transmit_from
transmit_from-step fuel sp e k k1 c ne r =
    let live : (e == null) ≡ false = ground arith in
    rw (live, r)
      (sym (and_then_assoc (receive_message receive_fuel sp null k1) (transmit_from fuel sp) _))

transmit_from-null :
    (fuel : ℕ) (sp : Ptr) (k : Kernel) → transmit_from (suc fuel) sp null k ≡ done [] k
unfolding transmit_from
transmit_from-null fuel sp k = refl

transmit_from-written :
    (fuel : ℕ) (sp : Ptr) (k : Kernel) (xs fs : List Ptr)
    → Inbox k xs fs
    → length xs ≤ fuel
    → (k' : Kernel) × (and_then
          (receive_message receive_fuel sp null k)
          (transmit_from (suc fuel) sp)
        ≡ done (written k.messages (reverse xs)) k')
      × Inbox k' [] (xs ++ fs)
transmit_from-written fuel sp k [] fs is small =
    let (k', r, is') = none-Inbox sp k fs is in
    (k', ap (λ m. and_then m (transmit_from (suc fuel) sp)) r ∙ transmit_from-null fuel sp k', is')
transmit_from-written zero sp k (x ∷ xs) fs is small = absurd (omega arith)
transmit_from-written (suc fuel) sp k (x ∷ xs) fs is small =
    let e = last x xs in
    let (q, next, r, is1) = received-Inbox sp k x xs fs is in
    let k1 = received (inbox k) e q next (trapped sp (receiving k) k) in
    let (away, ne) = Chain-last k.mess_next (k.mess_queues (inbox k)).head x xs is.messages.chain in
    let out = Disjoint-symm fs (x ∷ xs) is.apart e (mem-last x xs) in
    let (q', next', r', is2) = released-Inbox sp e k1 (front x xs) fs is1 ne out away in
    let (k', r'', is') =
      transmit_from-written fuel sp (freed sp e q' next' k1) (front x xs) (e ∷ fs) is2
        (omega (arith, length-front x xs)) in
    (
      k',
      ap (λ m. and_then m (transmit_from (suc (suc fuel)) sp)) r
          ∙ transmit_from-step (suc fuel) sp e k1 (freed sp e q' next' k1) rtx_success ne r'
          ∙ ap
              (λ m.
                and_then m
                  (λ rest. done (serial1_wd ((k.messages e).content 0) ∷ serial1_imr 2 ∷ rest)))
              r''
          ∙ ap (λ l. done (written k.messages l) k') (sym (reverse-last x xs)),
      subst (Inbox k' []) (front-last-append x xs fs) is',
    )

-- When the process runs with at most 256 messages, which are no free blocks, and no process waits
-- for memory, `transmit` returns: it has written the first byte of each message, the oldest first,
-- and set the mask after each; no message is left, and each is a free block, in the same order in
-- front of those that were free.
pub transmit-written :
    (sp : Ptr) (k : Kernel) (xs fs : List Ptr)
    → Inbox k xs fs
    → (k' : Kernel) × (transmit sp k ≡ done (written k.messages (reverse xs)) k')
      × Inbox k' [] (xs ++ fs)
unfolding transmit
transmit-written sp k xs fs is = transmit_from-written walk_fuel sp k xs fs is is.few
