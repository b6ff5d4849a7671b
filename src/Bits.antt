-- ===== src/Bits.antt =====
-- The integer and floating-point puzzles of C/CSAPPLab/bits/bits.c.
pub mod Word
pub mod Integer
pub mod Float
pub mod Digits
pub mod Logic
pub mod Division
pub mod Signs
mod Tests
