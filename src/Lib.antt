-- ===== src/Lib.antt =====
-- VaultKeep: a zero-knowledge password manager. This library models the parts of it that decide who
-- gets what: the sync server's services and request handler, the browser extension's fill logic, the
-- desktop's vault and password report, and the password generator.
--
-- The parts, and the files that model them (paths from the repository's root):
--   Server/Conflict     packages/server/src/sync/conflict.ts
--   Server/Vault        packages/server/src/vault/, with its routes in packages/server/src/main.ts; the
--                       stores of vault.repository.ts and store/filedb.ts are in Vault/Stores
--   Server/Devices      packages/server/src/devices/device.service.ts
--   Server/Recovery     packages/server/src/recovery/recovery.service.ts
--   Server/Token        packages/server/src/auth/token.service.ts
--   Server/Guard        packages/server/src/auth/guard.ts
--   Server/Mfa          packages/server/src/mfa/
--   Server/Passkeys     packages/server/src/auth/passkey.service.ts: its data; the operations are in
--                       Passkeys/Service and the stores, also of store/filedb.ts, in Passkeys/Stores
--   Server/Cbor         packages/server/src/auth/cbor.ts
--   Server/Assertions   packages/server/src/auth/webauthn.service.ts
--   Server/Range        packages/server/src/breach/range.service.ts
--   Server/Accounts     packages/server/src/auth/account.service.ts
--   Server/Login        the routes /auth/login and /auth/mfa of packages/server/src/main.ts
--   Server/Routes       the request handler of packages/server/src/main.ts, over the file stores; its
--                       paths are in Routes/Paths
--   Extension/Fill      packages/extension/src/{phishing,matcher,classify,autofill}.ts
--   Extension/Session   packages/extension/src/session.ts
--   Desktop/Vault       packages/desktop/src/core/vault-app.ts
--   Desktop/Biometric   packages/desktop/src/core/biometric.ts
--   Desktop/Health      packages/desktop/src/core/vault-health.ts
--   Crypto/Generator    packages/crypto/src/generator.ts
--   Base                what they share: tests, lists, texts, JavaScript's Map, keyed rows
--
-- How they interact: the routes call the account, MFA and token services to make a token; the guard
-- verifies it and asks the device service; what passes it reaches the vault and recovery services. A
-- service is written over a record of its store's operations, with laws in `IsRepository`, and the
-- stores fill that record. A method of a class is a function with its snake_case name (`resetVerifier`
-- is `reset_verifier`), which takes the state and returns it. A `throw` is the `throw` of Base's
-- `Thrown`. What Node and other packages do (HMAC, Argon2, base64, JSON, `new URL`, clocks, random bytes)
-- is an argument, or a field of a record named `Runtime` or `Outside`; what a theorem relies on of it
-- is a hypothesis.
--
-- Numbers are natural numbers; the counters of the program stay far below 2 ^ 53, where JavaScript's
-- numbers are exact. The hash of `decoy_salt` wraps at 2 ^ 32. Fuel is
-- given to `Server.Mfa.groups`, the number of bits, of which a turn uses at least one, and to
-- `Server.Cbor.decode_item`, one more than the bytes, of which each call reads one.
--
-- Not modelled: the desktop's sign-in and windows, the mobile application, the rest of the
-- client cryptography, the extension's unlock flow and page scripts, the Prisma adapters, and disk, network
-- and user interface.
pub mod Base
pub mod Server
pub mod Crypto
pub mod Extension
pub mod Desktop
