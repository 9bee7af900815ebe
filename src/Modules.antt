-- ===== src/Modules.antt =====
-- modules/.
pub mod Group
pub mod Hostname
pub mod Service
pub mod WaitFor
pub mod Pip
