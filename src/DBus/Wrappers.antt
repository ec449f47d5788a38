-- ===== src/DBus/Wrappers.antt =====
-- The client wrappers of rootfs/usr/include/dbus-1.0/dbus/dbus-glib-bindings.h.
pub mod Naming
pub mod Listing
pub mod Peers
