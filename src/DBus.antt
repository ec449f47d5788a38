-- ===== src/DBus.antt =====
-- The D-Bus headers of the root file system (rootfs/usr/include/dbus-1.0/dbus).
pub mod Glib
pub mod Client
pub mod Wrappers
pub mod Requests
pub mod Protocol
