-- ===== src/Jpeg.antt =====
-- The JPEG library's headers of the root file system (rootfs/usr/include).
pub mod Messages
pub mod Report
pub mod Structs
pub mod Config
