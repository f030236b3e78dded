-- ===== src/Examples/Waiting.antt =====
-- Processes that wait for memory, interrupts, and changes of the running process's priority, at the
-- kernel of `World`.
use door_rtos.Base.{◌≤◌, ◌≡◌, refl, [], ◌∷◌, arith, Ptr}
use door_rtos.Task.{ready, rtx_success, pcb_at, num_prio, get_pcb}
use door_rtos.Queue.Chain.{IsQueue}
use door_rtos.MetaQueue.Enqueue.{push_at}
use door_rtos.Kernel.Monad.{Kernel, done, switched}
use door_rtos.Kernel.Invariant.{IsScheduled}
use door_rtos.Kernel.Ready.{IsFirst, pop_at}
use door_rtos.Kernel.Interrupts.{timer_pid, timer_handler}
use door_rtos.Kernel.Interrupts.Scheduled.{IsIdle, Interrupted, timer_handler-Interrupted}
use door_rtos.Kernel.Primitives.{kernel_request_memory_block, kernel_release_memory_block}
use door_rtos.Kernel.Primitives.Memory.Waits.{
  HasWaited, Apart-symm, kernel_request_memory_block-HasWaited,
}
use door_rtos.Kernel.Primitives.Memory.Wakes.{kernel_release_memory_block-wakes}
use door_rtos.Kernel.Switch.{Switched}
use door_rtos.Kernel.Priority.{kernel_set_process_priority}
use door_rtos.Kernel.Priority.Running.{with_priority, kernel_set_process_priority-Switched}
use door_rtos.Examples.World.{
  one_ready, ready_one, none_waiting, world, world-IsScheduled, absent_ready, one_ready_below,
}

one_ready-IsFirst : IsFirst one_ready 2 4 []
one_ready-IsFirst = record {
  bound = omega arith;
  holds = refl;
  low = one_ready_below;
  enough = omega arith;
}

world-IsIdle :
    (t : Ptr) → 6 ≤ t → (world.pcbs t).priority ≤ num_prio → IsIdle world one_ready (λ i. []) t
world-IsIdle t h bound = record {
  ne_null = omega arith;
  ne_current = omega arith;
  bound = bound;
  absent_ready = absent_ready t (omega arith);
  absent_waiting = λ i h. refl;
}

timer_handler-Interrupted_example :
    (k' : Kernel) × (timer_handler 0x9100 world ≡ switched k')
    × Interrupted world one_ready (λ i. []) 0x9100 (pcb_at timer_pid) k'
timer_handler-Interrupted_example =
    timer_handler-Interrupted world-IsScheduled 0x9100
      (world-IsIdle (pcb_at timer_pid) (omega arith) (omega arith))

kernel_request_memory_block-HasWaited_example :
    (k' : Kernel) × (kernel_request_memory_block world ≡ switched k')
    × HasWaited world (pop_at one_ready 2 4 []) (λ i. []) 4 k'
kernel_request_memory_block-HasWaited_example =
    kernel_request_memory_block-HasWaited 2 4 [] world-IsScheduled one_ready-IsFirst
      (record { chain = refl; tail_is = tt }) refl

-- The process that is ready in `world` waits for memory here.
abbrev starved : Kernel
starved = record world { ready_queue = none_waiting; memory_wait_queue = ready_one }

starved-IsScheduled : IsScheduled starved (λ i. []) one_ready
starved-IsScheduled = record {
  ready = world-IsScheduled.waiting;
  waiting = world-IsScheduled.ready;
  apart = Apart-symm one_ready (λ i. []) world-IsScheduled.apart;
  ready_filed = world-IsScheduled.waiting_filed;
  waiting_filed = world-IsScheduled.ready_filed;
  current_ne = world-IsScheduled.current_ne;
  current_bound = world-IsScheduled.current_bound;
  current_ready = world-IsScheduled.current_waiting;
  current_waiting = world-IsScheduled.current_ready;
}

kernel_release_memory_block-wakes_example :
    (k' : Kernel) × (kernel_release_memory_block 500 starved ≡ done rtx_success k')
    × IsScheduled k' (push_at (λ i. []) 2 4) (pop_at one_ready 2 4 [])
    × IsQueue k'.block_next k'.free_mem_q (500 ∷ [])
    × ((k'.pcbs 4).state ≡ ready)
    × (k'.current_pcb ≡ 2)
kernel_release_memory_block-wakes_example =
    kernel_release_memory_block-wakes 500 [] 2 4 [] starved-IsScheduled one_ready-IsFirst
      (omega arith) (record { chain = refl; tail_is = tt }) (omega arith) refl

-- The running process has pid 1 and number 1.
world-found : get_pcb 1 world.pcbs ≡ world.current_pcb
unfolding get_pcb
world-found = refl

kernel_set_process_priority-Switched_example :
    (k' : Kernel) × (kernel_set_process_priority 1 3 world ≡ switched k')
    × Switched (with_priority 3 world) (pop_at one_ready 2 4 []) (λ i. []) 4 k'
kernel_set_process_priority-Switched_example =
    kernel_set_process_priority-Switched world-IsScheduled 1 3 world-found (omega arith)
      (omega arith) (omega arith) 2 4 [] (omega arith) one_ready-IsFirst (omega arith)
