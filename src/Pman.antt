-- ===== src/Pman.antt =====
-- PMan, the process manager of a1.
pub mod Store
pub mod Effects
pub mod Stat
pub mod Commands
pub mod Shell
mod Tests
