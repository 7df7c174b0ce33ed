-- ===== src/Fs.antt =====
-- fs/: the file system's parts.
pub mod Pipe
pub mod Files
pub mod Bitmap
pub mod Zones
