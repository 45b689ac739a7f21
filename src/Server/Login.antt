-- ===== src/Server/Login.antt =====
-- The login routes of packages/server/src/main.ts: `/auth/login`, which gives a token without MFA,
-- and `/auth/mfa`, which changes it into a full one. The services they call are those of the sibling
-- modules; bodies are what `readBody` gives, with "" for a missing text.
pub mod Flow
mod Tests
use vault_keep.Base.{
  ℕ, ◌+◌, Option, none, some, Bool, true, false, not, if◌then◌else◌, List, String, Thrown, ok,
  throw, truthy,
}
use vault_keep.Server.Token as Token
use vault_keep.Server.Token.{TokenClaims, TokenService}
use vault_keep.Server.Mfa as Mfa
use vault_keep.Server.Mfa.{MfaRepository}
use vault_keep.Server.Accounts as Accounts
use vault_keep.Server.Accounts.{AccountRecord, verify_login}

-- The answers of the two routes.
pub data Answer : Type 0 where
  invalid_credentials : Answer
  needs_device : (user_id : String) → Answer
  mfa_required : (token : String) → (user_id : String) → Answer
  invalid_token : Answer
  invalid_code : Answer
  full_token : (token : String) → Answer
  failed : (error : String) → Answer

module _ (out : Token.Outside) (tokens : TokenService) (accounts_rt : Accounts.Runtime)
    (mfa_rt : Mfa.Runtime) {S : Type 0} (repo : MfaRepository S) where
  abbrev pub logged_in : Option String → String → ℕ → Answer
  logged_in none device_id now = invalid_credentials
  logged_in (some user_id) device_id now =
      if not (truthy device_id)
      then needs_device user_id
      else mfa_required (Token.issue out tokens user_id device_id false 300 now) user_id

  unfoldable pub login : List AccountRecord → String → String → String → ℕ → Answer
  login accounts email auth_verifier device_id now =
      logged_in (verify_login accounts_rt accounts email auth_verifier) device_id now

  abbrev pub upgraded : TokenClaims → ℕ → Thrown Bool → Answer
  upgraded claims now (throw e) = failed e
  upgraded claims now (ok false) = invalid_code
  upgraded claims now (ok true) =
      full_token (Token.issue out tokens claims.sub claims.did true 3600 now)

  abbrev pub mfa_step : S → Option TokenClaims → String → ℕ → Answer
  mfa_step s none code now = invalid_token
  mfa_step s (some claims) code now =
      upgraded claims now (Mfa.verify repo mfa_rt s claims.sub code now)

  unfoldable pub mfa : S → String → String → ℕ → Answer
  mfa s token code now = mfa_step s (Token.verify out tokens now token) code now
