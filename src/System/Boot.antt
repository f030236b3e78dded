-- ===== src/System/Boot.antt =====
-- The kernel that boot leaves (kernel/init.c), and those that follow it.
use door_rtos.Base.{
  ℕ, zero, suc, ◌<◌, ◌≤◌, length, ◌≡◌, refl, sym, ◌∙◌, inl, inr, Bool-cases, [], arith, Ptr, mem,
  ◌∉◌, All, All-mem,
}
use door_rtos.Task.{ready, message_wait, max_processes, num_prio, pcb_at}
use door_rtos.Kernel.Monad.{Kernel, switched}
use door_rtos.Queue.Chain.{IsQueue}
use door_rtos.Boot.{num_mem_blocks}
use door_rtos.Boot.Blocks.{block_list, init_free_memory-Freed}
use door_rtos.Boot.Main.{main}
use door_rtos.Boot.Scheduler.{Program}
use door_rtos.Boot.Booted.{booted, boot_ready, start_scheduler-IsScheduled}
use door_rtos.System.Running.{IsRunning}
use door_rtos.System.Steps.{Reach, Runs, Reach-Runs}

-- Every process in the queues is an entry of the table, and is ready.
boot_tabled : (i : ℕ) → i ≤ num_prio → All (λ a. a ≤ max_processes) (boot_ready i)
boot_tabled zero h = ground arith
boot_tabled (suc zero) h = ground arith
boot_tabled (suc (suc zero)) h = tt
boot_tabled (suc (suc (suc zero))) h = tt
boot_tabled (suc (suc (suc (suc zero)))) h = ground arith
boot_tabled (suc (suc (suc (suc (suc n))))) h = tt

boot_states :
    (program : Program) (k : Kernel) (i : ℕ)
    → i ≤ num_prio
    → All (λ a. ((booted program k).pcbs a).state ≡ ready) (boot_ready i)
unfolding booted
boot_states program k zero h = (refl, (refl, tt))
boot_states program k (suc zero) h =
    (refl, (refl, (refl, (refl, (refl, (refl, (refl, (refl, (refl, (refl, (refl, tt)))))))))))
boot_states program k (suc (suc zero)) h = tt
boot_states program k (suc (suc (suc zero))) h = tt
boot_states program k (suc (suc (suc (suc zero)))) h = (refl, tt)
boot_states program k (suc (suc (suc (suc (suc n))))) h = tt

boot_state :
    (program : Program) (k : Kernel) → ((booted program k).pcbs (pcb_at 0x22)).state ≡ ready
unfolding booted
boot_state program k = refl

boot_absent :
    (program : Program) (k : Kernel) (a : Ptr)
    → ((booted program k).pcbs a).state ≡ message_wait
    → (i : ℕ) → i ≤ num_prio
    → a ∉ boot_ready i
boot_absent program k a e i h = elim (Bool-cases (mem a (boot_ready i))) [
  | inr o ↦ o
  | inl m ↦ absurd (
      let r =
        All-mem (λ b. ((booted program k).pcbs b).state ≡ ready) a (boot_ready i)
          (boot_states program k i h) m in
      let both = sym r ∙ e in cc)
]

pub booted-IsRunning :
    (program : Program) (k : Kernel) → IsRunning (booted program k) boot_ready (λ i. [])
booted-IsRunning program k =
    let (r, cur, is) = start_scheduler-IsScheduled program k in
    record {
      scheduled = is;
      ready_tabled =
          λ i h a m. All-mem (λ b. b ≤ max_processes) a (boot_ready i) (boot_tabled i h) m;
      waiting_tabled = λ i h a m. absurd (ground arith);
      current_tabled = rw cur (omega arith);
      parks = λ a e. (
        λ t.
            (let t' : a ≡ pcb_at 0x22 = t ∙ cur in
              let both = sym (boot_state program k) ∙ (rw t' at e) in cc),
        boot_absent program k a e,
        λ i h. refl,
      );
      idle = inr (4, omega arith, refl);
    }

-- The scheduler's start leaves the free queue as it is.
booted-blocks :
    (program : Program) (k : Kernel)
    → ((booted program k).free_mem_q ≡ k.free_mem_q)
      × ((booted program k).block_next ≡ k.block_next)
unfolding booted
booted-blocks program k = (refl, refl)

-- `main` with a program's end that is not NULL leaves, from every kernel, for a process in a kernel
-- whose free queue has the 256 blocks. After any sequence of calls and interrupts from there, in
-- which the conditions of each (those of `Call`) hold where it happens, the kernel runs: its queues by
-- priority are well formed over the one map of links, each process in them is an entry of the table
-- and stands once, in the queue of its number, and the running process and those that wait for a
-- message are in none. That every ready process is in a queue is not claimed.
pub main-Reach :
    (end_of_program : Ptr) (program : Program) (k : Kernel)
    → 0 < end_of_program
    → (k0 : Kernel) × (main end_of_program program k ≡ switched k0)
      × (length (block_list num_mem_blocks end_of_program []) ≡ 256)
      × IsQueue k0.block_next k0.free_mem_q (block_list num_mem_blocks end_of_program [])
      × ((k' : Kernel) → Reach k0 k' → Runs k')
unfolding main
main-Reach end_of_program program k pos =
    let ((q, next, r, is), all) = init_free_memory-Freed k end_of_program pos in
    let k1 = record k { free_mem_q = q; block_next = next } in
    let left = (start_scheduler-IsScheduled program k1).0 in
    let (same, same_next) = booted-blocks program k1 in
    (
      booted program k1,
      rw r left,
      all,
      rw (same, same_next) is,
      λ k' steps. Reach-Runs (boot_ready, (λ i. []), booted-IsRunning program k1) steps,
    )
