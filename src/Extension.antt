-- ===== src/Extension.antt =====
-- The browser extension (packages/extension).
pub mod Session
pub mod Fill
