-- ===== src/Server.antt =====
-- The server, packages/server/src: a module for each service and its stores.
pub mod Conflict
pub mod Vault
pub mod Devices
pub mod Recovery
pub mod Token
pub mod Guard
pub mod Mfa
pub mod Passkeys
pub mod Range
pub mod Assertions
pub mod Accounts
pub mod Login
pub mod Routes
pub mod Cbor
