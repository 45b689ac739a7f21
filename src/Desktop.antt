-- ===== src/Desktop.antt =====
-- The desktop application's core, packages/desktop/src/core.
pub mod Health
pub mod Vault
pub mod Biometric
