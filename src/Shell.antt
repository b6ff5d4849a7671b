-- ===== src/Shell.antt =====
-- The job control of the shell C/CSAPPLab/shell/tsh.c.
pub mod Jobs
pub mod Control
pub mod Command
mod Tests
