-- ===== src/ModuleUtils.antt =====
-- module_utils/.
pub mod Mode
