-- ===== src/Process.antt =====
-- The processes of process/: the timer and UART i-processes, the wall clock, the CRT process, the
-- keyboard decoder, the one that sets priorities, and the test producers and consumers.
pub mod Text
pub mod Timer
pub mod WallClock
pub mod Crt
pub mod Kcd
pub mod SetPriority
pub mod Uart
pub mod ProcessB
pub mod ProcessC
pub mod ProcessA
pub mod ProcessC2
pub mod Session
