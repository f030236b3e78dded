-- ===== src/Kernel/Priority/Running.antt =====
-- A process that changes its own priority (`kernel_set_process_priority` of kernel/primitives.c).
use door_rtos.Base.{ℕ, ◌≤◌, ◌<◌, ◌≡◌, ◌≢◌, ◌∙◌, ap, List, arith, Ptr, null, write, last}
use door_rtos.Task.{num_prio, get_pcb, rtx_success}
use door_rtos.MetaQueue.Invariant.{Lists}
use door_rtos.MetaQueue.Enqueue.{Absent}
use door_rtos.Kernel.Monad.{Kernel, done, switched, and_then}
use door_rtos.Kernel.Process.{current, update_pcb, set_priority, process_switch}
use door_rtos.Kernel.Invariant.{IsScheduled, Filed}
use door_rtos.Kernel.Ready.{IsFirst, pop_at}
use door_rtos.Kernel.Switch.{Switched, process_switch-Switched}
use door_rtos.Kernel.Priority.{set_running_priority, kernel_set_process_priority}

-- The kernel with another priority for the running process.
abbrev pub with_priority : ℕ → Kernel → Kernel
with_priority n k = record k { pcbs = write k.pcbs k.current_pcb (set_priority n (current k)) }

module _ (k : Kernel) (n : ℕ) where
  with_priority-current : (current (with_priority n k)).priority ≡ n
  unfolding write
  with_priority-current = ground arith

  with_priority_ne :
      (a : Ptr) → a ≢ k.current_pcb → ((with_priority n k).pcbs a).priority ≡ (k.pcbs a).priority
  unfolding write
  with_priority_ne a ne = ground arith

  Filed-with_priority :
      (xss : Lists)
      → Absent k.current_pcb xss
      → Filed k.pcbs xss
      → Filed (with_priority n k).pcbs xss
  Filed-with_priority xss out filed i h a m =
      with_priority_ne a (λ s. (let m' = rw s at m in let o = out i h in cc)) ∙ filed i h a m

  pub with_priority-IsScheduled :
      {rs ws : Lists} → n ≤ num_prio → IsScheduled k rs ws → IsScheduled (with_priority n k) rs ws
  with_priority-IsScheduled {rs} {ws} bound is = record {
    ready = is.ready;
    waiting = is.waiting;
    apart = is.apart;
    ready_filed = Filed-with_priority rs is.current_ready is.ready_filed;
    waiting_filed = Filed-with_priority ws is.current_waiting is.waiting_filed;
    current_ne = is.current_ne;
    current_bound = rw with_priority-current bound;
    current_ready = is.current_ready;
    current_waiting = is.current_waiting;
  }

module _ (k : Kernel) (pid n : ℕ) (found : get_pcb pid k.pcbs ≡ k.current_pcb)
    (ne : k.current_pcb ≢ null) (user : pid ≢ 0) (free : n ≢ 4) where
  pub set_running-eq : kernel_set_process_priority pid n k ≡ set_running_priority k.current_pcb n k
  unfolding kernel_set_process_priority
  set_running-eq = ground (arith, found)

  pub keeps-eq :
      n ≤ (current k).priority
      → set_running_priority k.current_pcb n k ≡ done rtx_success (with_priority n k)
  unfolding set_running_priority update_pcb
  keeps-eq h = ground arith

  pub lowers-eq :
      (current k).priority < n
      → set_running_priority k.current_pcb n k
        ≡ and_then (process_switch (with_priority n k)) (λ _. done rtx_success)
  unfolding set_running_priority update_pcb
  lowers-eq h = ground arith

module _ {k : Kernel} {rs ws : Lists} (is : IsScheduled k rs ws) (pid n : ℕ)
    (found : get_pcb pid k.pcbs ≡ k.current_pcb) (user : pid ≢ 0) (free : n ≢ 4)
    (bound : n ≤ num_prio) where
  -- The running process, when its pid is not 0, gives itself a number `n` in range, not 4 and not
  -- larger than its own: the call succeeds, only its number changes, and the scheduler's invariant
  -- holds.
  pub kernel_set_process_priority-keeps :
      n ≤ (current k).priority
      → (kernel_set_process_priority pid n k ≡ done rtx_success (with_priority n k))
        × IsScheduled (with_priority n k) rs ws
        × ((current (with_priority n k)).priority ≡ n)
  kernel_set_process_priority-keeps h = (
    set_running-eq k pid n found is.current_ne user free
        ∙ keeps-eq k pid n found is.current_ne user free h,
    with_priority-IsScheduled k n bound is,
    with_priority-current k n,
  )

  -- The running process, when its pid is not 0, gives itself a larger number `n` in range and not
  -- 4, with `p` the smallest number of a ready process and at most `n`: it leaves for the oldest
  -- ready process of `p`, is the newest ready one of `n`, and the scheduler's invariant holds.
  pub kernel_set_process_priority-Switched :
      (p : ℕ) (x : Ptr) (xs : List Ptr)
      → (current k).priority < n
      → IsFirst rs p x xs
      → p ≤ n
      → (k' : Kernel) × (kernel_set_process_priority pid n k ≡ switched k')
        × Switched (with_priority n k) (pop_at rs p x xs) ws (last x xs) k'
  kernel_set_process_priority-Switched p x xs less f h =
      let (k', r, s) =
        process_switch-Switched p x xs (with_priority-IsScheduled k n bound is) f
          (rw (with_priority-current k n) h) in
      (
        k',
        set_running-eq k pid n found is.current_ne user free
            ∙ lowers-eq k pid n found is.current_ne user free less
            ∙ ap (λ m. and_then m (λ _. done rtx_success)) r,
        s,
      )
