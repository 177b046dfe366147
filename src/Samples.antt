-- ===== src/Samples.antt =====
-- The samples of the repository that are no part of a program.
pub mod Mutex
pub mod Convar
pub mod Stamp
pub mod Arguments
pub mod Clock
pub mod Create
mod Tests
