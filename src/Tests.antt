-- ===== src/Tests.antt =====
-- Runs at fixed inputs, and the theorems at concrete inputs.
mod Parsing
mod Inventory
mod Yaml
mod Playbook
mod Variables
mod Executor
mod Modules
mod ModuleUtils
mod Plugins
mod Utilities
mod WaitFor
mod Pip
mod Callbacks
mod Ini
