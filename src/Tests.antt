-- ===== src/Tests.antt =====
-- Tests and instances of the theorems at concrete inputs.
pub mod Threads
pub mod Bitmap
pub mod Webserver
pub mod Points
pub mod Super
pub mod Read
pub mod Allocate
pub mod Inodes
pub mod Words
pub mod Cache
pub mod Requests
pub mod Mount
pub mod Free
