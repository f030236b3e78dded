-- ===== src/Boot.antt =====
-- The boot sequence of kernel/init.c: the free memory blocks, the PCBs with their stacks, and the
-- first process. `&__end`, where the program ends, and the addresses of the processes' functions
-- come from the linker, so they are parameters.
pub mod Hardware
pub mod Stack
pub mod Scheduler
pub mod Blocks
pub mod Booted
pub mod Main
use door_rtos.Base.{ℕ, zero, suc, ◌+◌, Ptr}
use door_rtos.Kernel.Monad.{Kernel, M, skip, modify, ◌>>=◌, ◌>>◌}
use door_rtos.Kernel.Queues.{enqueue_free_memory_queue, init_free_memory_queue}

abbrev pub num_mem_blocks : ℕ
num_mem_blocks = 256

-- `sizeof (struct memory_block_t)`: the data and a pointer.
abbrev pub memory_block_size : ℕ
memory_block_size = 256 + 4

-- The loop of `init_free_memory`, with so many rounds left.
unfoldable pub add_blocks : (rounds : ℕ) (temp : Ptr) → M (Unit {0})
add_blocks zero temp = skip
add_blocks (suc rounds) temp =
    enqueue_free_memory_queue temp >> add_blocks rounds (temp + memory_block_size)

unfoldable pub init_free_memory : (end_of_program : Ptr) → M (Unit {0})
init_free_memory end_of_program = init_free_memory_queue >> add_blocks num_mem_blocks end_of_program
