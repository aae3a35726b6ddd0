-- ===== src/Fat32.antt =====
-- The FAT32 crate, fat32/src/lib.rs and fat32/src/dir_entry.rs, over a disk image in memory.
-- Children: Error (results), Text (string helpers and 8.3 names), DirEntry, Volume (boot
-- sector, geometry, FAT and chains), Read (the read-only view), Write (the read-write view).
-- The children of each state its laws.
pub mod Error
pub mod Text
pub mod DirEntry
pub mod Volume
pub mod Read
pub mod Write
mod Tests
mod Witnesses
