-- ===== src/Kernel.antt =====
-- The state of the kernel (the globals of kernel/rtos.c, kernel/queue.c, kernel/msg_queue.c,
-- kernel/init.c and kernel/swi.c), and programs that change it.
pub mod Monad
pub mod Queues
pub mod Process
pub mod Primitives
pub mod Priority
pub mod Delayed
pub mod Swi
pub mod Invariant
pub mod Ready
pub mod Waiting
pub mod Switch
pub mod Interrupts
