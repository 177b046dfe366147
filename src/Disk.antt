-- ===== src/Disk.antt =====
-- The FAT12 image readers of a3.
pub mod Image
pub mod Fat
pub mod Entry
pub mod Forest
pub mod Info
pub mod Listing
pub mod Signed
mod Sample
mod Tests
