-- ===== src/Boot/Booted.antt =====
-- The state that `start_scheduler` of kernel/init.c starts the first process in.
use door_rtos.Base.{
  ℕ, zero, suc, ◌≤◌, ◌≡◌, refl, List, [], ◌∷◌, arith, Ptr, write, ◌∉◌, All, All-mem,
}
use door_rtos.Task.{pcb_at, num_prio}
use door_rtos.Queue.{is_empty, init_queue, enqueue, dequeue_fifo, cut_tail, seek}
use door_rtos.Queue.Chain.{IsQueue}
use door_rtos.MetaQueue.{init_meta, enqueue_by_priority, dequeue_by_priority, raise_highest}
use door_rtos.MetaQueue.Invariant.{Lists, init_meta-IsMeta}
use door_rtos.Kernel.Monad.{Kernel, Run, done, switched, crashed, stuck, walk_fuel}
use door_rtos.Kernel.Queues.{init_msg_queue, enqueue_ready, dequeue_ready}
use door_rtos.Kernel.Process.{update_pcb, leave_for}
use door_rtos.Kernel.Invariant.{IsScheduled, Filed, Filed-apart}
use door_rtos.Boot.Scheduler.{
  Program, start_scheduler, init_all, init_process, init_i_processes, new_pcb,
}

after : {A : Type 0} → Run A → Kernel → Kernel
after (done a k') k = k'
after (switched k') k = k'
after crashed k = k
after stuck k = k

-- The state that the scheduler leaves in.
unfoldable pub booted : Program → Kernel → Kernel
unfolding after start_scheduler init_all init_process init_i_processes init_msg_queue update_pcb
    enqueue_ready dequeue_ready leave_for init_meta enqueue_by_priority dequeue_by_priority
    raise_highest is_empty enqueue dequeue_fifo cut_tail seek write init_queue walk_fuel new_pcb
booted program k = after (start_scheduler program k) k

-- The ready processes by priority, newest first: those of number 0 are 0x23 and 0x20, since 0x22
-- runs, the decoder and ten tasks have number 1, and the null process has number 4.
abbrev pub boot_list : List ℕ → List Ptr
boot_list [] = []
boot_list (n ∷ ns) = pcb_at n ∷ boot_list ns

abbrev pub boot_ready : Lists
boot_ready zero = boot_list (0x23 ∷ 0x20 ∷ [])
boot_ready (suc zero) = boot_list (0x21 ∷ 13 ∷ 12 ∷ 11 ∷ 10 ∷ 9 ∷ 8 ∷ 7 ∷ 3 ∷ 2 ∷ 1 ∷ [])
boot_ready (suc (suc (suc (suc zero)))) = boot_list (0 ∷ [])
boot_ready (suc (suc n)) = []

boot-switched :
    (program : Program) (k : Kernel) → start_scheduler program k ≡ switched (booted program k)
unfolding booted
boot-switched program k = refl

boot-queues :
    (program : Program) (k : Kernel) (i : ℕ)
    → i ≤ num_prio
    → IsQueue
        (booted program k).pcb_next
        ((booted program k).ready_queue.subqueues i)
        (boot_ready i)
unfolding booted
boot-queues program k zero h = record { chain = ground arith; tail_is = refl }
boot-queues program k (suc zero) h = record { chain = ground arith; tail_is = refl }
boot-queues program k (suc (suc zero)) h = record { chain = refl; tail_is = tt }
boot-queues program k (suc (suc (suc zero))) h = record { chain = refl; tail_is = tt }
boot-queues program k (suc (suc (suc (suc zero)))) h = record {
  chain = ground arith;
  tail_is = refl;
}
boot-queues program k (suc (suc (suc (suc (suc zero))))) h = record { chain = refl; tail_is = tt }
boot-queues program k (suc (suc (suc (suc (suc (suc i)))))) h = absurd (omega arith)

boot-prio :
    (program : Program) (k : Kernel) (i : ℕ)
    → i ≤ num_prio
    → All (λ a. ((booted program k).pcbs a).priority ≡ i) (boot_ready i)
unfolding booted
boot-prio program k zero h = ground arith
boot-prio program k (suc zero) h = ground arith
boot-prio program k (suc (suc zero)) h = tt
boot-prio program k (suc (suc (suc zero))) h = tt
boot-prio program k (suc (suc (suc (suc zero)))) h = ground arith
boot-prio program k (suc (suc (suc (suc (suc zero))))) h = tt
boot-prio program k (suc (suc (suc (suc (suc (suc i)))))) h = absurd (omega arith)

boot-absent : (i : ℕ) → i ≤ num_prio → pcb_at 0x22 ∉ boot_ready i
boot-absent zero h = refl
boot-absent (suc zero) h = refl
boot-absent (suc (suc zero)) h = refl
boot-absent (suc (suc (suc zero))) h = refl
boot-absent (suc (suc (suc (suc zero)))) h = refl
boot-absent (suc (suc (suc (suc (suc zero))))) h = refl
boot-absent (suc (suc (suc (suc (suc (suc i)))))) h = absurd (omega arith)

boot-facts :
    (program : Program) (k : Kernel)
    → ((booted program k).ready_queue.highest_prio ≡ 0)
      × ((booted program k).current_pcb ≡ pcb_at 0x22)
      × (((booted program k).pcbs (pcb_at 0x22)).priority ≡ 0)
      × ((booted program k).memory_wait_queue ≡ init_meta k.memory_wait_queue)
unfolding booted
boot-facts program k = (refl, refl, refl, refl)

-- From every kernel, `start_scheduler` leaves for the wall clock process, pid 0x22. The
-- scheduler's invariant holds then, with the processes of `boot_ready` ready in the queues of
-- their priorities and none waiting for memory.
pub start_scheduler-IsScheduled :
    (program : Program) (k : Kernel)
    → (start_scheduler program k ≡ switched (booted program k))
      × ((booted program k).current_pcb ≡ pcb_at 0x22)
      × IsScheduled (booted program k) boot_ready (λ i. [])
start_scheduler-IsScheduled program k =
    let (top, cur, prio, wait) = boot-facts program k in
    let filed : Filed (booted program k).pcbs boot_ready = λ i h a m.
      All-mem (λ a. ((booted program k).pcbs a).priority ≡ i) a (boot_ready i)
        (boot-prio program k i h) m in
    (
      boot-switched program k,
      cur,
      record {
        ready = record {
          family = record {
            queues = boot-queues program k;
            apart = Filed-apart (booted program k).pcbs boot_ready filed;
          };
          highest = record {
            bound = omega (arith, top);
            below = λ i l. absurd (omega (arith, top));
            top = λ b. rw top (λ t. cc);
          };
        };
        waiting = rw wait (init_meta-IsMeta _ k.memory_wait_queue);
        apart = λ i j h h' a m. refl;
        ready_filed = filed;
        waiting_filed = λ i h a m. cc;
        current_ne = rw cur (λ t. ground arith);
        current_bound = rw (cur, prio) (omega arith);
        current_ready = λ i h. rw cur (boot-absent i h);
        current_waiting = λ i h. refl;
      },
    )
