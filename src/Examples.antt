-- ===== src/Examples.antt =====
-- The theorems at concrete kernels, queues and strings.
pub mod World
pub mod Queues
pub mod Kernels
pub mod Waiting
pub mod Processes
pub mod Text
pub mod System
pub mod Devices
pub mod Processor
pub mod Relays
pub mod Hardware
