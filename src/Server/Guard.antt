-- ===== src/Server/Guard.antt =====
-- packages/server/src/auth/guard.ts: the three checks before a protected request. The lookup of the
-- device is a parameter: DeviceService is given in its place (main.ts).
mod Checks
mod Tests
use vault_keep.Base.{
  ℕ, Option, none, some, Bool, true, false, not, if◌then◌else◌, String, strip_prefix,
}
use vault_keep.Server.Token.{TokenClaims, Outside, TokenService, verify}

pub data AuthResult : Type 0 where
  admitted : TokenClaims → AuthResult
  denied : (status : ℕ) → (message : String) → AuthResult

module _ (out : Outside) (tokens : TokenService) (is_approved : String → String → Bool)
    (now : ℕ) where
  abbrev pub admit : Option TokenClaims → AuthResult
  admit none = denied 401 "invalid or expired token"
  admit (some claims) =
      if not claims.mfa
      then denied 403 "MFA required"
      else if not (is_approved claims.sub claims.did)
      then denied 403 "device not approved"
      else admitted claims

  -- `header.startsWith("Bearer ")` and `header.slice("Bearer ".length)`
  abbrev pub bearer : Option String → AuthResult
  bearer none = denied 401 "missing bearer token"
  bearer (some token) = admit (verify out tokens now token)

  -- The argument is the request's `authorization` header, if it has one.
  unfoldable pub authenticate : Option String → AuthResult
  authenticate none = denied 401 "missing bearer token"
  authenticate (some header) = bearer (strip_prefix "Bearer " header)
