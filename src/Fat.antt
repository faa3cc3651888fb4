-- ===== src/Fat.antt =====
-- kernel/fs/fat16fs.c: the file system FAT16, on a disk of sectors.
pub mod Disk
pub mod Names
pub mod Table
pub mod File
pub mod Copies
pub mod Mirror
pub mod Entry
pub mod Reread
mod Tests
