-- ===== src/Utilities.antt =====
-- utils/version and utils/slices.
pub mod Version
pub mod Slices
pub mod Callbacks
