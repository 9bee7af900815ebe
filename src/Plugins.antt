-- ===== src/Plugins.antt =====
-- plugins/: the lookup plugins, set_fact and become.
pub mod Lookup
pub mod Become
pub mod Actions
