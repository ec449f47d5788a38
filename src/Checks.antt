-- ===== src/Checks.antt =====
-- The theorems at concrete inputs: runs of the wrappers against a small bus, codes and layouts.
pub mod Splashes
pub mod Configs
pub mod Consoles
pub mod Logins
pub mod Displays
pub mod Boots
pub mod Requests
pub mod Jpeg
pub mod Install
pub mod Session
pub mod Hooks
pub mod Packages
pub mod Images
pub mod Pins
pub mod Bootstraps
pub mod Deployment
pub mod Card
pub mod Capture
pub mod Formats
