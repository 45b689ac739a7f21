-- ===== src/Server/Guard/Tests.antt =====
-- The guard before Ann's laptop.
use vault_keep.Base.{
  [], ◌∷◌, ok, throw, if◌then◌else◌, strip_prefix, split_on, Bool, true, String, str_eq, none, some,
  ◌≡◌, ◌↔◌, refl, ◌&&◌,
}
use vault_keep.Server.Token.{TokenClaims, Outside, TokenService, verify, b64url}
use vault_keep.Server.Guard.{admitted, denied, authenticate}
use vault_keep.Server.Guard.Checks.{IsAllowed, authenticate_lem}

abbrev ann : TokenClaims
ann = record { sub = "ann"; did = "d1"; mfa = true; exp = 3600 }

abbrev toy : Outside
toy = record {
  hmac_sha256 = λ secret text. 1 ∷ [];
  to_base64 = λ bytes. "A";
  from_base64 = λ text. text;
  utf8 = λ text. [];
  stringify = λ claims. "";
  parse = λ text. if str_eq text "A" then ok ann else throw "Unexpected token";
}

abbrev service : TokenService
service = record { secret = "0123456789abcdef" }

-- Ann's first device is approved.
abbrev lookup : String → String → Bool
lookup user device = str_eq user "ann" && str_eq device "d1"

good_header : authenticate toy service lookup 0 (some "Bearer A.A.A") ≡ admitted ann
unfolding authenticate verify strip_prefix split_on b64url
good_header = refl

no_header : authenticate toy service lookup 0 none ≡ denied 401 "missing bearer token"
unfolding authenticate
no_header = refl

late :
    authenticate toy service lookup 3601000 (some "Bearer A.A.A")
    ≡ denied 401 "invalid or expired token"
unfolding authenticate verify strip_prefix split_on b64url
late = refl

authenticate_lem_example :
    (authenticate toy service lookup 0 (some "Bearer A.A.A") ≡ admitted ann)
    ↔ IsAllowed toy service lookup 0 (some "Bearer A.A.A") ann
authenticate_lem_example = authenticate_lem toy service lookup 0 ann (some "Bearer A.A.A")
