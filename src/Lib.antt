-- ===== src/Lib.antt =====
-- DOOR: a small real-time kernel for the ColdFire, in C. Processes have a priority (0 is the
-- highest), send each other messages in envelopes that are memory blocks, and call the kernel by
-- trap 0. This library models the kernel's state and operations and shows what they keep and do.
--
-- The parts, and how they use each other:
-- - Base: Boolean tests, lists over the native numbers, and the model of memory. A pointer is a
--   number, 0 is NULL, and the fields of the structures behind pointers are maps. Each kind of
--   structure has its `next` field in a map of its own, so a write to a link is visible to every
--   queue of that kind. An access through NULL is the outcome `fault` (or `crashed`), and a loop
--   that outruns its fuel is `out_of_fuel` (or `stuck`).
-- - Queue: the singly linked queues of kernel/queue.c (enqueue_PCB, dequeue_PCB_FIFO,
--   dequeue_PCB_LIFO, search, searchDequeue), which kernel/msg_queue.c and kernel/memory_queue.c
--   repeat for messages and blocks. Queue/Chain says what it is to be a queue, Queue/Fifo what the
--   operations do to the list that it stands for, the newest element first.
-- - Task, Message: PCBs and envelopes (include/task.h, include/messages.h), get_pcb of kernel/task.c.
--   `pcbs + i` and `m_queues + i` are the addresses `i + 1`.
-- - MetaQueue: the queues by priority of kernel/queue.c (init_METAPCB_queue,
--   is_METAPCB_queue_empty, enqueue_PCB_by_priority, dequeue_PCB_FIFO_by_priority,
--   remove_element), with a child module for the theorems of each operation.
-- - Kernel: the globals as a record. Kernel/Monad has the state monad: `done` is a return to the
--   caller, `switched` that the code has left for another process, as context_switch does.
--   Kernel/Queues and Kernel/Process lift the queue operations and have context_switch and
--   process_switch, Kernel/Primitives, Kernel/Delayed and Kernel/Priority the functions of
--   kernel/primitives.c, Kernel/Swi the trap handler and the calls of kernel/swi.c,
--   Kernel/Interrupts kernel/timer_handler.c and kernel/uart_handler.c. Kernel/Invariant states
--   the scheduler's invariant: ready and memory-wait queues are well formed over the one map of
--   links, no process is in two of them, each stands in the queue of its priority, and the
--   running process is in none.
-- - System: the kernel as a whole. System/Running says what a kernel keeps that runs, System/Steps
--   has the calls and interrupts as a relation, with the sequences of them, System/Boot what holds
--   after `main`, System/Fair the order in which processes of one priority run.
-- - Boot: kernel/init.c, without _RTX_EVAL_, and `main` of kernel/rtos.c. `&__end` and the entries
--   of the processes come from the linker and are parameters. Boot/Hardware has init_hardware as
--   stores to the vectors and the registers, apart from the kernel's globals.
-- - Process: the timer i-process of process/timer_i_process.c, the UART i-process of
--   process/uart_i_process.c and the test processes that pass messages on (process/process_b1.c,
--   process_b2.c), round by round in the kernel's monad, and the wall clock, the keyboard
--   decoder, the CRT process, the priority setter, the test producers and the test consumers
--   (process/wall_clock_process.c, kcd_process.c, crt_process.c, set_priority_process.c,
--   process_a1.c to process_a3.c, process_c1.c, process_c2.c) as functions of a message: from the
--   locals that last to new ones and a list of what is sent. What a device gives is an argument, and
--   what is written to one is a result. Process/Session follows a command from key to screen.
-- - Machine: registers, stack and memory at the entry and the exit of the kernel, with the macros of
--   arch/m68k-coldfire5307/arch.h as instructions. The body of a handler in between is the model of
--   Kernel, which shares only `tmp_sp` with it.
-- - Console: kernel/stdio.c. The monitor behind trap 15 is a parameter.
-- - Strings: routines of kernel/string.c on the bytes before the NUL. Those that build a result
--   behind a pointer to a string literal are in Strings/Literals.
-- - Examples: the theorems at concrete kernels, queues, clocks and strings.
--
-- In Boot and System an interrupt is a step between two calls: the handlers run with interrupts
-- disabled, and so does the kernel. Changes of the priority of a process that waits for memory, or is
-- the last of several ready ones of its priority, are no steps there. Nor are calls with arguments
-- that the kernel does not check (System/Steps lists what has to hold), and an interrupt whose
-- i-process still stands in a queue, as it can after a round that ended with release_processor.
--
-- Bounds: `walk_fuel` is 256, the number of memory blocks and more than the 64 PCBs, so it is
-- enough for every chain of distinct elements; the theorems say so as a hypothesis on the length.
-- `raise_fuel` is 7: the loop over priorities makes at most 7 tests. `digit_fuel` is 10, the digits
-- of a 32-bit number. Delays and the clock are 32-bit words.
--
-- Not modelled: the null process, which only prints, kernel/libc.c, which names a type that no file
-- declares, and the copies of kernel/init.c (init_standard.c, init_irene.c, oldinit.c,
-- init_standardc). What the processes print to the debug port is left out of them. A stack is the
-- addresses and words that init_local_stack stores. The memory that the routines of Strings/Literals write
-- over behind a literal is left out, and so is what a device does on a store to a register.
pub mod Base
pub mod Queue
pub mod Task
pub mod MetaQueue
pub mod Message
pub mod Kernel
pub mod Process
pub mod Strings
pub mod Boot
pub mod System
pub mod Machine
pub mod Console
pub mod Examples
