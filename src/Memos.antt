-- ===== src/Memos.antt =====
-- OS/WeensyOS/MemOS, a kernel with virtual memory: page tables, physical pages and processes.
pub mod Paging
pub mod Pages
pub mod Kernel
pub mod Handler
mod Tests
