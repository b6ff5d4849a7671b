-- ===== src/Miniproc.antt =====
-- MiniprocOS (OS/WeensyOS/MiniprocOS): the process table, and the kernel's calls on it.
pub mod Machine
pub mod Memory
pub mod Schedule
pub mod Fork
pub mod Interrupt
pub mod Invariant
pub mod Wake
pub mod Slots
pub mod Children
pub mod Exit
pub mod Kill
pub mod Resume
pub mod Boot
mod Tests
