-- ===== src/Crypto.antt =====
-- The client cryptography (packages/crypto).
pub mod Generator
