-- ===== src/Server/Login/Tests.antt =====
-- Ann's login under a toy encoding that knows her two sessions.
use vault_keep.Base.{
  ℕ, ◌+◌, ◌/◌, some, Bool, true, false, if◌then◌else◌, List, [], ◌∷◌, String, ◌<>◌, ok, str_eq, ◌≡◌,
  ◌≢◌, refl, sym, arith, ltb, ◌==◌, NoChar, text_length, split_on,
}
use vault_keep.Server.Token as Token
use vault_keep.Server.Token.{TokenClaims, TokenService}
use vault_keep.Server.Token.RoundTrip.{IsNode}
use vault_keep.Server.Guard.{admitted, denied, authenticate}
use vault_keep.Server.Mfa as Mfa
use vault_keep.Server.Mfa.{MfaRecord}
use vault_keep.Server.Mfa.Stores as Stores
use vault_keep.Server.Accounts as Accounts
use vault_keep.Server.Accounts.{AccountRecord}
use vault_keep.Server.Login.{mfa_required, full_token, login, mfa}
use vault_keep.Server.Login.Flow.{login-authenticate, mfa-authenticate}

abbrev letter : Bool → String
letter b = if b then "A" else "B"

abbrev first_letter : List ℕ → String
first_letter [] = letter true
first_letter (n ∷ ns) = letter (n == 0)

abbrev ann : Bool → ℕ → TokenClaims
ann mfa exp = record { sub = "u1"; did = "d1"; mfa = mfa; exp = exp }

abbrev toy : Token.Outside
toy = record {
  hmac_sha256 = λ secret text. [];
  to_base64 = first_letter;
  from_base64 = λ text. text;
  utf8 = λ text. text_length text ∷ [];
  stringify = λ claims. if claims.mfa then "full" else "";
  parse = λ text. if str_eq text "A" then ok (ann false 300) else ok (ann true 3690);
}

NoChar-letter : (d : ℕ) (b : Bool) → d ≢ b'A' → d ≢ b'B' → NoChar d (letter b)
NoChar-letter d true ha hb = (λ e. ha (sym e), tt)
NoChar-letter d false ha hb = (λ e. hb (sym e), tt)

NoChar-first : (d : ℕ) (ns : List ℕ) → d ≢ b'A' → d ≢ b'B' → NoChar d (first_letter ns)
NoChar-first d [] ha hb = NoChar-letter d true ha hb
NoChar-first d (n ∷ ns) ha hb = NoChar-letter d (n == 0) ha hb

toy-IsNode : IsNode toy
toy-IsNode = record {
  no_dash = λ ns. NoChar-first b'-' ns (omega arith) (omega arith);
  no_low_line = λ ns. NoChar-first b'_' ns (omega arith) (omega arith);
  no_dot = λ ns. NoChar-first b'.' ns (omega arith) (omega arith);
}

abbrev service : TokenService
service = record { secret = "0123456789abcdef" }

abbrev accounts_rt : Accounts.Runtime
accounts_rt = record {
  to_lower = λ s. s;
  base64_text = λ s. s;
  hash_verifier = λ verifier salt. ok verifier;
  argon2_verify = λ guess hash. str_eq guess hash;
}

abbrev accounts : List AccountRecord
accounts =
    record {
      id = "u1";
      email = "ann@x.org";
      kdf_salt = "s";
      kdf_memory_kib = 65536;
      kdf_iterations = 3;
      kdf_parallel = 4;
      auth_hash = "0123456789abcdef";
      created_at = "t";
    }
    ∷ []

abbrev mfa_rt : Mfa.Runtime
mfa_rt = record { hmac_sha1 = λ key buf. []; to_upper = λ s. s }

abbrev records : List MfaRecord
records = record { user_id = "u1"; secret = "AA"; confirmed = true } ∷ []

abbrev lookup : String → String → Bool
lookup user device = str_eq device "d1"

first_factor :
    login toy service accounts_rt mfa_rt Stores.file accounts "ann@x.org" "0123456789abcdef" "d1" 60
    ≡ mfa_required "B.A.A" "u1"
unfolding login Accounts.verify_login Accounts.find_by_email Token.issue Token.b64url
    Token.b64url_text
first_factor = refl

second_factor :
    mfa toy service accounts_rt mfa_rt Stores.file records "B.A.A" "000000" 90000
    ≡ full_token "B.B.A"
unfolding mfa Token.verify Token.issue Token.b64url Token.b64url_text split_on Mfa.verify
    Mfa.verify_totp Mfa.code_at Mfa.truncated Mfa.padded Stores.file_get
second_factor = refl

login-authenticate_example : authenticate toy service lookup 1000 (some ("Bearer " <> "B.A.A")) ≡ (
    if ltb (60 / 1000 + 300) (1000 / 1000)
    then denied 401 "invalid or expired token"
    else denied 403 "MFA required")
login-authenticate_example =
    login-authenticate toy toy-IsNode service accounts_rt mfa_rt Stores.file lookup accounts
      "ann@x.org" "0123456789abcdef" "d1" 60 1000 "B.A.A" "u1" refl first_factor

good : Token.verify toy service 90000 "B.A.A" ≡ some (ann false 300)
unfolding Token.verify Token.b64url split_on
good = refl

mfa-authenticate_example :
    (Mfa.verify Stores.file mfa_rt records "u1" "000000" 90000 ≡ ok true)
    × (authenticate toy service lookup 100000 (some ("Bearer " <> "B.B.A"))
        ≡ (if lookup "u1" "d1" then admitted (ann true 3690) else denied 403 "device not approved"))
mfa-authenticate_example =
    mfa-authenticate toy toy-IsNode service accounts_rt mfa_rt Stores.file lookup records "B.A.A"
      "000000" 90000 100000 "B.B.A" (ann false 300) refl good second_factor (omega arith)
