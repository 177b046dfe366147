-- ===== src/Checkin.antt =====
-- The airline check-in simulation a2/A2.c.
pub mod Queue
pub mod Desk
pub mod Threads
pub mod Input
pub mod Main
pub mod Finish
mod Tests
