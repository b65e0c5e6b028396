-- ===== src/DiskFs.antt =====
-- The disk file system of `basekernel/kernel/diskfs.c` on the blocks that the block cache shows. A
-- device that fails is left out, and so are the buffers, but for what they hold before a read that is
-- refused.
pub mod Layout
pub mod Bitmap
pub mod Inode
pub mod Search
pub mod Release
pub mod Numbering
pub mod Words
pub mod Blocks
pub mod Directory
pub mod Removal
pub mod Super
pub mod Lookup
pub mod Format
pub mod Freed
mod Tests
