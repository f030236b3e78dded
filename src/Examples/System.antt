-- ===== src/Examples/System.antt =====
-- The running system at the kernel that boot leaves.
use door_rtos.Base.{◌≤◌, ◌≡◌, ◌≢◌, refl, [], ◌∷◌, length, null, arith}
use door_rtos.Task.{pcb_at}
use door_rtos.Queue.Chain.{IsQueue}
use door_rtos.Kernel.Monad.{Kernel, switched, walk_fuel, skip, ◌>>◌}
use door_rtos.Kernel.Primitives.{kernel_receive_message}
use door_rtos.Kernel.Primitives.Receive.{inbox}
use door_rtos.Boot.{num_mem_blocks}
use door_rtos.Boot.Blocks.{block_list}
use door_rtos.Boot.Booted.{booted}
use door_rtos.Boot.Main.{main}
use door_rtos.System.Running.{Keeps}
use door_rtos.System.Steps.{message_received, Call-Keeps, Reach, Runs}
use door_rtos.System.Boot.{booted-IsRunning, main-Reach}
use door_rtos.System.Fair.{Yields, process_switch-fair}
use door_rtos.Examples.World.{world, program}

main-Reach_example :
    (k0 : Kernel) × (main 0x10000 program world ≡ switched k0)
    × (length (block_list num_mem_blocks 0x10000 []) ≡ 256)
    × IsQueue k0.block_next k0.free_mem_q (block_list num_mem_blocks 0x10000 [])
    × ((k' : Kernel) → Reach k0 k' → Runs k')
main-Reach_example = main-Reach 0x10000 program world (omega arith)

booted_ne : (booted program world).current_pcb ≢ pcb_at 0
unfolding booted
booted_ne t = omega arith

booted-inbox_ne : inbox (booted program world) ≢ null
unfolding booted
booted-inbox_ne t = omega arith

booted-inbox :
    IsQueue
      (booted program world).mess_next
      ((booted program world).mess_queues (inbox (booted program world)))
      []
unfolding booted
booted-inbox = record { chain = refl; tail_is = tt }

few : 0 ≤ walk_fuel
unfolding walk_fuel
few = omega arith

-- The wall clock process waits for a message.
Call-Keeps_example : Keeps ((kernel_receive_message >> skip) (booted program world))
Call-Keeps_example =
    Call-Keeps (booted-IsRunning program world)
      (message_received [] booted_ne booted-inbox few booted-inbox_ne)

booted-priority : ((booted program world).pcbs (booted program world).current_pcb).priority ≡ 0
unfolding booted
booted-priority = refl

-- Two processes of the highest priority are ready.
process_switch-fair_example :
    (k' : Kernel) × Yields 2 (booted program world) k' × (k'.current_pcb ≡ pcb_at 0x23)
process_switch-fair_example =
    process_switch-fair 0 [] (pcb_at 0x23) (pcb_at 0x20 ∷ []) (booted-IsRunning program world)
      (omega arith) refl (λ i l. absurd (omega arith)) booted-priority
