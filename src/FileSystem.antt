-- ===== src/FileSystem.antt =====
-- 06. File Systems: a simulated disk and the file system on it.
pub mod Block
pub mod Inode
pub mod Machine
pub mod Disk
pub mod Format
pub mod Bitmap
pub mod Mount
pub mod Table
pub mod Text
pub mod Write
pub mod Read
pub mod Copy
pub mod Debug
pub mod Shell
mod Tests
