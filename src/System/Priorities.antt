-- ===== src/System/Priorities.antt =====
-- Changes of priority in a kernel that runs (kernel/primitives.c).
use door_rtos.Base.{
  ℕ, ◌≤◌, ◌≡◌, ◌≢◌, sym, refl, ◌∙◌, inl, inr, Bool-cases, true, false, ◌||◌, arith, ◌==◌, Ptr, null,
  write, write_ne, List,
}
use native.Mathlib.Decide.{dec_lt}
use door_rtos.Task.{ready, message_wait, num_prio, get_pcb, rtx_success, rtx_error}
use door_rtos.MetaQueue.Invariant.{Lists}
use door_rtos.Kernel.Monad.{Kernel, done}
use door_rtos.Kernel.Process.{current, update_pcb, set_priority, process_switch}
use door_rtos.Kernel.Priority.{
  set_ready_priority, kernel_set_process_priority, kernel_get_process_priority,
}
use door_rtos.Kernel.Priority.Running.{
  with_priority, with_priority-IsScheduled, set_running-eq, keeps-eq, lowers-eq,
}
use door_rtos.System.Messages.{with_messages-IsRunning}
use door_rtos.System.Running.{IsRunning, Keeps, Keeps-done, Keeps-and_then}
use door_rtos.System.Refiled.{IsReady, Filed-changed, current_ne, set_ready_priority-Keeps}
use door_rtos.System.Switching.{process_switch-Keeps}

-- The kernel with another priority for the process at `a`.
abbrev reprioritized : (a : Ptr) → ℕ → Kernel → Kernel
reprioritized a n k = record k { pcbs = write k.pcbs a (set_priority n (k.pcbs a)) }

reprioritized-state :
    (a : Ptr) (n : ℕ) (k : Kernel) (b : Ptr)
    → ((reprioritized a n k).pcbs b).state ≡ (k.pcbs b).state
unfolding write
reprioritized-state a n k b = ground arith

module _ {k : Kernel} {rs ws : Lists} (is : IsRunning k rs ws) (n : ℕ) where
  module _ (bound : n ≤ num_prio) where
    with_priority-IsRunning : IsRunning (with_priority n k) rs ws
    with_priority-IsRunning = record {
      scheduled = with_priority-IsScheduled k n bound is.scheduled;
      ready_tabled = is.ready_tabled;
      waiting_tabled = is.waiting_tabled;
      current_tabled = is.current_tabled;
      parks = λ a e. is.parks a (sym (reprioritized-state k.current_pcb n k a) ∙ e);
      idle = is.idle;
    }

    running-Keeps :
        (pid : ℕ)
        → get_pcb pid k.pcbs ≡ k.current_pcb
        → pid ≢ 0
        → n ≢ 4
        → Keeps (kernel_set_process_priority pid n k)
    running-Keeps pid found user free =
        let ne = is.scheduled.current_ne in
        let r = set_running-eq k pid n found ne user free in
        elim (dec_lt (current k).priority n) [
          | no h ↦
              Keeps-done rs ws (r ∙ keeps-eq k pid n found ne user free (omega arith))
                with_priority-IsRunning
          | yes h ↦
              let keeps =
                Keeps-and_then (process_switch (with_priority n k)) (λ _. done rtx_success)
                  (process_switch-Keeps with_priority-IsRunning)
                  (λ a k' rs' ws' is'. (rs', ws', is')) in
              rw (r ∙ lowers-eq k pid n found ne user free h) keeps
        ]

  -- A process that waits for a message is in no queue.
  module _ (a : Ptr) (parked : (k.pcbs a).state ≡ message_wait) where
    parked-IsRunning : IsRunning (reprioritized a n k) rs ws
    parked-IsRunning =
        let (ne, out, out') = is.parks a parked in
        let same = write_ne k.pcbs a (set_priority n (k.pcbs a)) k.current_pcb (λ e. ne (sym e)) in
        record {
          scheduled = record {
            ready = is.scheduled.ready;
            waiting = is.scheduled.waiting;
            apart = is.scheduled.apart;
            ready_filed = Filed-changed k a n rs out is.scheduled.ready_filed;
            waiting_filed = Filed-changed k a n ws out' is.scheduled.waiting_filed;
            current_ne = is.scheduled.current_ne;
            current_bound = rw same is.scheduled.current_bound;
            current_ready = is.scheduled.current_ready;
            current_waiting = is.scheduled.current_waiting;
          };
          ready_tabled = is.ready_tabled;
          waiting_tabled = is.waiting_tabled;
          current_tabled = is.current_tabled;
          parks = λ b e. is.parks b (sym (reprioritized-state a n k b) ∙ e);
          idle = is.idle;
        }

-- What the running process can ask for: what the kernel refuses, a change of its own priority, of a
-- process that waits for a message, or of a ready process that is not the last of several. The
-- numbers of the first and the last of these are in range.
pub data IsSettable (k : Kernel) (pid n : ℕ) : Type 0 where
  refused : (pid == 0) || (n == 4) ≡ true → IsSettable k pid n
  unknown : get_pcb pid k.pcbs ≡ null → IsSettable k pid n
  own : get_pcb pid k.pcbs ≡ k.current_pcb → n ≤ num_prio → IsSettable k pid n
  parked :
      get_pcb pid k.pcbs ≢ null
      → (k.pcbs (get_pcb pid k.pcbs)).state ≡ message_wait
      → IsSettable k pid n
  listed :
      (xs ys : List Ptr)
      → get_pcb pid k.pcbs ≢ null
      → (k.pcbs (get_pcb pid k.pcbs)).state ≡ ready
      → IsReady k (get_pcb pid k.pcbs) xs ys
      → n ≤ num_prio
      → IsSettable k pid n

module _ (k : Kernel) (pid n : ℕ) where
  refused-eq :
      (pid == 0) || (n == 4) ≡ true → kernel_set_process_priority pid n k ≡ done rtx_error k
  unfolding kernel_set_process_priority
  refused-eq e = ground (arith, e)

  unknown-eq : get_pcb pid k.pcbs ≡ null → kernel_set_process_priority pid n k ≡ done rtx_error k
  unfolding kernel_set_process_priority
  unknown-eq e = ground (arith, e)

  parked-eq :
      (a : Ptr)
      → get_pcb pid k.pcbs ≡ a
      → a ≢ null
      → a ≢ k.current_pcb
      → (k.pcbs a).state ≡ message_wait
      → (pid == 0) || (n == 4) ≡ false
      → kernel_set_process_priority pid n k ≡ done rtx_success (reprioritized a n k)
  unfolding kernel_set_process_priority update_pcb
  parked-eq a found ne other waits allowed = ground (arith, found, waits, allowed)

  listed-eq :
      (a : Ptr)
      → get_pcb pid k.pcbs ≡ a
      → a ≢ null
      → a ≢ k.current_pcb
      → (k.pcbs a).state ≡ ready
      → (pid == 0) || (n == 4) ≡ false
      → kernel_set_process_priority pid n k ≡ set_ready_priority a n k
  unfolding kernel_set_process_priority
  listed-eq a found ne other state allowed = ground (arith, found, state, allowed)

pub kernel_set_process_priority-Keeps :
    {k : Kernel} {rs ws : Lists} (pid n : ℕ)
    → IsRunning k rs ws
    → IsSettable k pid n
    → Keeps (kernel_set_process_priority pid n k)
kernel_set_process_priority-Keeps {k} {rs} {ws} pid n is (refused e) =
    Keeps-done rs ws (refused-eq k pid n e) is
kernel_set_process_priority-Keeps {k} {rs} {ws} pid n is (unknown e) =
    Keeps-done rs ws (unknown-eq k pid n e) is
kernel_set_process_priority-Keeps {k} {rs} {ws} pid n is (own found bound) =
    elim (Bool-cases ((pid == 0) || (n == 4))) [
      | inl e ↦ Keeps-done rs ws (refused-eq k pid n e) is
      | inr e ↦ running-Keeps is n bound pid found (λ z. ground arith) (λ z. ground arith)
    ]
kernel_set_process_priority-Keeps {k} {rs} {ws} pid n is (parked ne e) =
    elim (Bool-cases ((pid == 0) || (n == 4))) [
      | inl r ↦ Keeps-done rs ws (refused-eq k pid n r) is
      | inr r ↦
          let a = get_pcb pid k.pcbs in
          let (other, out, out') = is.parks a e in
          Keeps-done rs ws (parked-eq k pid n a refl ne other e r) (parked-IsRunning is n a e)
    ]
kernel_set_process_priority-Keeps {k} {rs} {ws} pid n is (listed xs ys ne e r bound) =
    elim (Bool-cases ((pid == 0) || (n == 4))) [
      | inl z ↦ Keeps-done rs ws (refused-eq k pid n z) is
      | inr z ↦
          let a = get_pcb pid k.pcbs in
          rw (listed-eq k pid n a refl ne (λ t. current_ne is a xs ys r n bound (sym t)) e z)
            (set_ready_priority-Keeps is a xs ys r n bound ne)
    ]

pub kernel_get_process_priority-Keeps :
    {k : Kernel} {rs ws : Lists} (pid : ℕ)
    → IsRunning k rs ws
    → Keeps (kernel_get_process_priority pid k)
unfolding kernel_get_process_priority
kernel_get_process_priority-Keeps {k} {rs} {ws} pid is =
    elim (Bool-cases (get_pcb pid k.pcbs == null)) [
      | inl e ↦ rw e (rs, ws, is)
      | inr e ↦ rw e (rs, ws, with_messages-IsRunning k.messages k.mess_next k.mess_queues _ is)
    ]
