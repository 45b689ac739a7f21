-- ===== src/Server/Token.antt =====
-- packages/server/src/auth/token.service.ts: HS256 tokens. HMAC, base64, UTF-8 and JSON are Node's:
-- they are the fields of `Outside`. The source casts what `JSON.parse` gives to the type of the claims
-- without a check; here `parse` gives claims of that type or throws, as it does for the payloads that
-- `issue` writes, the only ones that the service signs.
pub mod Base64
pub mod RoundTrip
mod Tests
use Prim.Native.Char.{Char, code}
use Prim.Native.String
use vault_keep.Base.{
  ℕ, ◌+◌, ◌/◌, ◌≤◌, Option, none, some, Bool, true, false, not, ◌&&◌, ◌||◌, if◌then◌else◌, ◌==◌,
  List, [], ◌∷◌, String, ◌<>◌, Thrown, ok, throw, str_eq, ltb, utf16_length, split_on,
}

pub record TokenClaims : Type 0 where
  pub sub : String
  pub did : String
  pub mfa : Bool
  pub exp : ℕ

pub record Outside : Type 0 where
  pub hmac_sha256 : String → String → List ℕ
  pub to_base64 : List ℕ → String
  -- `Buffer.from(s, "base64").toString()`
  pub from_base64 : String → String
  -- `Buffer.from(s)`
  pub utf8 : String → List ℕ
  -- `JSON.stringify` and `JSON.parse` of claims
  pub stringify : TokenClaims → String
  pub parse : String → Thrown TokenClaims

-- `s.replace(/a/g, b)`, for single characters
abbrev pub swap : ℕ → Char → Char → Char
swap a b c = if code c == a then b else c

abbrev pub replace_all : ℕ → Char → String → String
replace_all a b String.[] = String.[]
replace_all a b (String.◌∷◌ c s) = String.◌∷◌ (swap a b c) (replace_all a b s)

abbrev pub is_nil : String → Bool
is_nil String.[] = true
is_nil (String.◌∷◌ c s) = false

-- `s.replace(/=+$/, "")`
abbrev pub strip_padding : String → String
strip_padding String.[] = String.[]
strip_padding (String.◌∷◌ c s) =
    let rest = strip_padding s in
    if code c == b'=' && is_nil rest then String.[] else String.◌∷◌ c rest

-- the header that `issue` writes, `JSON.stringify({ alg: "HS256", typ: "JWT" })`
abbrev pub header_json : String
header_json = "{\"alg\":\"HS256\",\"typ\":\"JWT\"}"

-- The service holds its secret.
pub record TokenService : Type 0 where
  pub secret : String

unfoldable pub new_token_service : String → Thrown TokenService
new_token_service secret =
    if is_nil secret || ltb (utf16_length secret) 16
    then throw "JWT secret must be at least 16 chars"
    else ok (record { secret = secret })

-- `${a}.${b}`
abbrev pub dotted : String → String → String
dotted a b = a <> ("." <> b)

module _ (out : Outside) where
  unfoldable pub b64url : List ℕ → String
  b64url bytes = strip_padding (replace_all b'/' "_" (replace_all b'+' "-" (out.to_base64 bytes)))

  unfoldable pub b64url_text : String → String
  b64url_text text = b64url (out.utf8 text)

  -- `p.replace(/-/g, "+").replace(/_/g, "/")`
  abbrev pub standard : String → String
  standard p = replace_all b'_' "/" (replace_all b'-' "+" p)

  abbrev pub signature : TokenService → String → String
  signature service head = b64url (out.hmac_sha256 service.secret head)

  -- The claims but for their expiry, and the clock in milliseconds.
  unfoldable pub issue : TokenService → String → String → Bool → ℕ → ℕ → String
  issue service sub did mfa ttl now =
      let payload : TokenClaims = record {
        sub = sub;
        did = did;
        mfa = mfa;
        exp = now / 1000 + ttl;
      } in
      let head = dotted (b64url_text header_json) (b64url_text (out.stringify payload)) in
      dotted head (signature service head)

  abbrev pub unexpired : Thrown TokenClaims → ℕ → Option TokenClaims
  unexpired (throw e) now = none
  unexpired (ok claims) now = if ltb claims.exp (now / 1000) then none else some claims

  abbrev pub checked : TokenService → ℕ → List String → Option TokenClaims
  checked service now (h ∷ p ∷ sig ∷ []) =
      if not (str_eq sig (signature service (dotted h p)))
      then none
      else unexpired (out.parse (out.from_base64 (standard p))) now
  checked service now _ = none

  unfoldable pub verify : TokenService → ℕ → String → Option TokenClaims
  verify service now token = checked service now (split_on b'.' token)
