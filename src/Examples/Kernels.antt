-- ===== src/Examples/Kernels.antt =====
-- The kernel's primitives at the kernel of `World`.
use door_rtos.Base.{
  ℕ, ◌≡◌, ◌≢◌, refl, inl, List, [], ◌∷◌, arith, Ptr, null, Links, ◌==◌, if◌then◌else◌, write,
}
use door_rtos.Task.{ready, rtx_success, pcb_at, get_pcb}
use door_rtos.Queue.{queue, is_empty}
use door_rtos.Queue.Chain.{IsQueue}
use door_rtos.MetaQueue.Enqueue.{push_at}
use door_rtos.Kernel.Monad.{Kernel, done, switched, walk_fuel}
use door_rtos.Kernel.Process.{current, process_switch}
use door_rtos.Kernel.Invariant.{NoneParked, IsScheduled}
use door_rtos.Kernel.Ready.{IsFirst, pop_at}
use door_rtos.Kernel.Switch.{Switched, process_switch-Switched}
use door_rtos.Kernel.Primitives.{kernel_send_message, kernel_receive_message}
use door_rtos.Kernel.Primitives.Send.{IsSendable, IsSent}
use door_rtos.Kernel.Primitives.Wake.{IsReceiver, kernel_send_message-wakes}
use door_rtos.Kernel.Primitives.Wake.Lost.{IsLost, kernel_send_message-IsLost}
use door_rtos.Kernel.Primitives.Receive.{inbox, kernel_receive_message-last}
use door_rtos.Kernel.Primitives.Receive.Wait.{HasLeft, kernel_receive_message-HasLeft}
use door_rtos.Kernel.Delayed.{kernel_delayed_send}
use door_rtos.Kernel.Delayed.Due.{delays_of, dues, insert_due}
use door_rtos.Kernel.Delayed.Insert.{IsDelayed}
use door_rtos.Kernel.Delayed.Send.{kernel_delayed_send-insert_due}
use door_rtos.Boot.Scheduler.{start_scheduler}
use door_rtos.Boot.Booted.{booted, boot_ready, start_scheduler-IsScheduled}
use door_rtos.Examples.World.{
  program, one_ready, world, world-IsScheduled, absent_ready, one_ready_below,
}

start_scheduler-IsScheduled_example :
    (start_scheduler program world ≡ switched (booted program world))
    × ((booted program world).current_pcb ≡ pcb_at 0x22)
    × IsScheduled (booted program world) boot_ready (λ i. [])
start_scheduler-IsScheduled_example = start_scheduler-IsScheduled program world

-- The only ready process has number 2.
world-IsFirst : IsFirst one_ready 2 4 []
world-IsFirst = record {
  bound = omega arith;
  holds = refl;
  low = one_ready_below;
  enough = omega arith;
}

-- After boot a process of number 0 is ready.
boot-IsFirst : IsFirst boot_ready 0 (pcb_at 0x23) (pcb_at 0x20 ∷ [])
unfolding walk_fuel
boot-IsFirst = record {
  bound = omega arith;
  holds = refl;
  low = λ i h. absurd (omega arith);
  enough = ground arith;
}

process_switch-Switched_example :
    (k' : Kernel) × (process_switch (booted program world) ≡ switched k')
    × Switched
        (booted program world)
        (pop_at boot_ready 0 (pcb_at 0x23) (pcb_at 0x20 ∷ []))
        (λ i. [])
        (pcb_at 0x20)
        k'
process_switch-Switched_example =
    process_switch-Switched 0 (pcb_at 0x23) (pcb_at 0x20 ∷ [])
      (start_scheduler-IsScheduled program world).2 boot-IsFirst (omega arith)

-- The envelope at 300 can go to each process that has a pid below 5.
world-IsSendable :
    (process_id dest : ℕ)
    → get_pcb process_id world.pcbs ≡ dest
    → dest ≢ null
    → (world.pcbs dest).mess_queue ≢ null
    → IsSendable world process_id 300 dest []
unfolding get_pcb
world-IsSendable process_id dest e ne ne' = record {
  found = e;
  dest_ne = ne;
  envelope_ne = omega arith;
  queue_ne = ne';
  queue = record { chain = refl; tail_is = tt };
  fresh = refl;
  source = refl;
}

world-IsSendable_2 : IsSendable world 2 300 3 []
unfolding get_pcb
world-IsSendable_2 = world-IsSendable 2 3 refl (omega arith) (omega arith)

world-IsSendable_3 : IsSendable world 3 300 4 []
unfolding get_pcb
world-IsSendable_3 = world-IsSendable 3 4 refl (omega arith) (omega arith)

world-IsSendable_4 : IsSendable world 4 300 5 []
unfolding get_pcb
world-IsSendable_4 = world-IsSendable 4 5 refl (omega arith) (omega arith)

world-IsReceiver_2 : IsReceiver world one_ready (λ i. []) 3
world-IsReceiver_2 = record {
  ne_null = omega arith;
  ne_current = omega arith;
  bound = omega arith;
  waits = refl;
  absent_ready = absent_ready 3 (omega arith);
  absent_waiting = λ i h. refl;
}

world-IsReceiver_4 : IsReceiver world one_ready (λ i. []) 5
world-IsReceiver_4 = record {
  ne_null = omega arith;
  ne_current = omega arith;
  bound = omega arith;
  waits = refl;
  absent_ready = absent_ready 5 (omega arith);
  absent_waiting = λ i h. refl;
}

kernel_send_message-wakes_example :
    (k' : Kernel) × (kernel_send_message 2 300 world ≡ done rtx_success k')
    × IsScheduled k' (push_at one_ready 0 3) (λ i. [])
    × IsSent world 2 300 3 [] k'
    × ((k'.pcbs 3).state ≡ ready)
    × (k'.current_pcb ≡ 2)
    × NoneParked world.pcbs k'.pcbs
kernel_send_message-wakes_example =
    kernel_send_message-wakes world-IsScheduled world-IsSendable_2 world-IsReceiver_2
      (inl (omega arith))

-- The process of number 2 stays the first when one of number 3 is added.
pushed-IsFirst : IsFirst (push_at one_ready 3 5) 2 4 []
unfolding write
pushed-IsFirst = record {
  bound = omega arith;
  holds = refl;
  low = λ i h. let e = one_ready_below i h in ground arith;
  enough = omega arith;
}

kernel_send_message-IsLost_example :
    (k' : Kernel) × (kernel_send_message 4 300 world ≡ switched k')
    × (k'.current_pcb ≡ 4)
    × IsLost world k' (pop_at (push_at one_ready 3 5) 2 4 []) (λ i. [])
    × ((k'.pcbs 2).state ≡ (current world).state)
    × ((k'.pcbs 5).state ≡ ready)
kernel_send_message-IsLost_example =
    kernel_send_message-IsLost world-IsScheduled world-IsSendable_4 world-IsReceiver_4 2 4 []
      (omega arith) refl pushed-IsFirst

kernel_receive_message-HasLeft_example :
    (k' : Kernel) × (kernel_receive_message world ≡ switched k')
    × HasLeft world (pop_at one_ready 2 4 []) (λ i. []) 4 k'
unfolding is_empty
kernel_receive_message-HasLeft_example =
    kernel_receive_message-HasLeft world one_ready (λ i. []) 2 4 [] world-IsScheduled world-IsFirst
      (λ t. ground arith) refl refl

-- Links of a queue of two, at 100 and 101.
abbrev two_links : Links
two_links n = if n == 100 then 101 else null

two-IsQueue : IsQueue two_links (queue 100 101) (100 ∷ 101 ∷ [])
two-IsQueue = record { chain = ground arith; tail_is = refl }

-- The two stand in the queue of every process and in that of the delayed messages.
abbrev with_two : Kernel
with_two = record world { mess_queues = λ a. queue 100 101; mess_next = two_links }

kernel_receive_message-last_example :
    (k' : Kernel) × (kernel_receive_message with_two ≡ done 101 k')
    × IsQueue k'.mess_next (k'.mess_queues (inbox with_two)) (100 ∷ [])
    × (k'.swi.ret_code_recv ≡ 101)
    × (k'.swi.msg_return ≡ 1)
unfolding walk_fuel
kernel_receive_message-last_example =
    kernel_receive_message-last with_two (λ t. ground arith) 100 (101 ∷ []) two-IsQueue
      (ground arith)

kernel_delayed_send-insert_due_example :
    (k' : Kernel) × (ys : List Ptr) × (kernel_delayed_send 2 300 150 with_two ≡ done rtx_success k')
    × IsDelayed k' ys
    × (dues (delays_of k'.messages) 0 ys
        ≡ insert_due 300 150 (dues (delays_of with_two.messages) 0 (100 ∷ 101 ∷ [])))
unfolding walk_fuel
kernel_delayed_send-insert_due_example =
    kernel_delayed_send-insert_due 2 300 150 with_two (100 ∷ 101 ∷ []) two-IsQueue.chain
      (ground arith) (omega arith) refl (omega arith) (omega arith)
