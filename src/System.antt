-- ===== src/System.antt =====
-- The kernel as a whole: what a running system keeps from call to call and interrupt to interrupt.
pub mod Table
pub mod Running
pub mod Switching
pub mod Memory
pub mod Messages
pub mod Sends
pub mod Delays
pub mod Refiled
pub mod Priorities
pub mod Steps
pub mod Boot
pub mod Fair
