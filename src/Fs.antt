-- ===== src/Fs.antt =====
-- fs/: a small file system on a disk image.
pub mod Bitmap
pub mod Device
pub mod Super
pub mod Inode
pub mod Read
pub mod File
pub mod Allocate
pub mod Inodes
pub mod Write
pub mod Mount
pub mod Free
