-- ===== src/Fat.antt =====
-- The FAT32 driver of ATS/myfat: the mounted volume, the entries of the file allocation table, the
-- cluster chains of files.
pub mod Volume
pub mod Entry
pub mod Mirror
pub mod Free
pub mod Alloc
pub mod Chain
pub mod Cluster
pub mod Extend
pub mod Dir
pub mod Unlink
pub mod Fresh
pub mod Link
mod Tests
mod DirTests
