-- ===== src/Desktop/Biometric.antt =====
-- packages/desktop/src/core/biometric.ts: a copy of the master key behind the operating system's
-- keystore. The keystore is the record `Enclave`, over what it holds of the moment: whether it is there
-- and whether the user passes the prompt; base64 and JSON are the fields of `Runtime`. The token store is
-- its one cell.
pub mod Recovers
mod Tests
use vault_keep.Base.{
  ℕ, Option, none, some, Bool, true, false, not, ◌||◌, if◌then◌else◌, ◌==◌, List, String, truthy,
  Thrown, ok, throw, ◌>>=◌, length, is_some, ◌&&◌,
}
use vault_keep.Desktop.Vault.{Key}

pub record WrappedKey : Type 0 where
  pub key_b64 : String
  pub salt_b64 : String
  pub user_id : Option String

pub record SecureEnclave : Type 0 where
  pub is_available : Bool
  pub prompt_user : Bool
  pub encrypt : String → String
  pub decrypt : String → Thrown String

pub record Runtime : Type 0 where
  pub to_base64 : List ℕ → String
  pub from_base64 : String → List ℕ
  pub stringify : WrappedKey → String
  pub parse : String → Thrown WrappedKey

pub record Recovered : Type 0 where
  pub key : Key
  pub salt_b64 : String
  pub user_id : Option String

-- What the token store holds.
abbrev pub Token : Type 0
Token = Option String

abbrev pub checked : Bool → Recovered → Thrown Recovered
checked true r = ok r
checked false r = throw "wrapped key malformed"

-- The `catch` clears the token.
abbrev pub kept : String → Thrown Recovered → Token × Option Recovered
kept token (ok r) = (some token, some r)
kept token (throw e) = (none, none)

module _ (rt : Runtime) (enclave : SecureEnclave) where
  unfoldable pub is_enrolled : Token → Bool
  is_enrolled token = enclave.is_available && is_some token

  unfoldable pub enroll : Token → Key → String → Option String → Token × Thrown (Unit {0})
  enroll token key salt user =
      if not enclave.is_available
      then (token, throw "biometric keystore unavailable on this device")
      else (
        some (
            enclave.encrypt (
              rt.stringify
                (record { key_b64 = rt.to_base64 key; salt_b64 = salt; user_id = user }))),
        ok tt,
      )

  unfoldable pub unenroll : Token → Token
  unenroll token = none

  abbrev pub recovered : WrappedKey → Recovered
  recovered w = record {
    key = rt.from_base64 w.key_b64;
    salt_b64 = w.salt_b64;
    user_id = w.user_id;
  }

  -- The body of the `try`.
  abbrev pub unwrapped : String → Thrown Recovered
  unwrapped token = enclave.decrypt token >>= λ text.
      rt.parse text >>= λ w. checked (length (rt.from_base64 w.key_b64) == 32) (recovered w)

  abbrev pub recover_from : Token → Token × Option Recovered
  recover_from none = (none, none)
  recover_from (some token) =
      if not (truthy token) || not enclave.is_available
      then (some token, none)
      else if not enclave.prompt_user
      then (some token, none)
      else kept token (unwrapped token)

  unfoldable pub recover_key : Token → Token × Option Recovered
  recover_key token = recover_from token
