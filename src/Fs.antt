-- ===== src/Fs.antt =====
-- kernel/fs: the buffer cache, the file system on disk, and open files.
pub mod Bio
pub mod State
pub mod Bitmap
pub mod Inode
pub mod Data
pub mod Dir
pub mod Path
pub mod File
pub mod Mount
pub mod Access
pub mod Transparent
pub mod Tests
pub mod DiskTests
