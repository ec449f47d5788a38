-- ===== src/DBus/Protocol.antt =====
-- The constants of the wire protocol, rootfs/usr/include/dbus-1.0/dbus/dbus-protocol.h.
pub mod Types
pub mod Limits
pub mod Header
pub mod Errors
