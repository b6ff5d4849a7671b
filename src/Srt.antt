-- ===== src/Srt.antt =====
-- The SRT transport protocol (Networks/DartNet/SRT): framing, connection blocks, client and server.
pub mod Framing
pub mod Tcb
pub mod Client
pub mod Server
mod Tests
