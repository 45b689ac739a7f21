-- ===== src/Server/Routes/Tests.antt =====
-- A push of Ann's laptop through the whole handler, under toy encodings.
use vault_keep.Base.{
  ℕ, zero, suc, Option, none, some, Bool, true, if◌then◌else◌, [], ◌∷◌, String, Thrown, ok, throw,
  str_eq, ◌≡◌, ap, refl, ◌⊎◌, text_length, split_on, strip_prefix,
}
use vault_keep.Base.Int.{ℤ, pos}
use vault_keep.Base.Keyed as Keyed
use vault_keep.Server.Token as Token
use vault_keep.Server.Token.{TokenClaims, TokenService}
use vault_keep.Server.Guard as Guard
use vault_keep.Server.Accounts as Accounts
use vault_keep.Server.Mfa as Mfa
use vault_keep.Server.Devices as Devices
use vault_keep.Server.Devices.Stores as DeviceStores
use vault_keep.Server.Recovery as Recovery
use vault_keep.Server.Conflict as Conflict
use vault_keep.Server.Vault as Vault
use vault_keep.Server.Vault.Stores as VaultStores
use vault_keep.Server.Routes.{
  World, Moment, HttpRequest, error, handle, route, handle_gated, ungated, gated, approve, push,
}
use vault_keep.Server.Routes.Gate.{ServedBehind, handle-vault}

abbrev ann : TokenClaims
ann = record { sub = "ann"; did = "d1"; mfa = true; exp = 3600 }

abbrev outside : Token.Outside
outside = record {
  hmac_sha256 = λ secret text. 1 ∷ [];
  to_base64 = λ bytes. "A";
  from_base64 = λ text. text;
  utf8 = λ text. [];
  stringify = λ claims. "";
  parse = λ text. if str_eq text "A" then ok ann else throw "Unexpected token";
}

abbrev service : TokenService
service = record { secret = "0123456789abcdef" }

abbrev accounts_rt : Accounts.Runtime
accounts_rt = record {
  to_lower = λ s. s;
  base64_text = λ s. s;
  hash_verifier = λ verifier salt. ok verifier;
  argon2_verify = λ guess hash. str_eq guess hash;
}

abbrev mfa_rt : Mfa.Runtime
mfa_rt = record { hmac_sha1 = λ key buf. []; to_upper = λ s. s }

abbrev signed : String → String → String → Thrown Bool
signed key message signature = ok (str_eq key signature)

-- a date as that many strokes
tally : ℕ → String
tally zero = ""
tally (suc n) = String.◌∷◌ "|" (tally n)

length-tally : (n : ℕ) → text_length (tally n) ≡ n
unfolding tally
length-tally zero = refl
length-tally (suc n) = ap suc (length-tally n)

abbrev recovery_rt : Recovery.Runtime
recovery_rt = record {
  dates = record {
    iso = tally;
    parse = λ s. some (pos (text_length s));
    parse-iso = λ t h. ap (λ n. some (pos n)) (length-tally t);
  };
  verify = signed;
  hash_secret = λ secret salt. ok secret;
  argon2_verify = λ guess hash. ok (str_eq guess hash);
  wait_ms = 10;
}

abbrev parse : String → Option ℤ
parse s = some (pos (text_length s))

-- Ann has one device, which is trusted.
abbrev world : World
world = record {
  accounts = [];
  mfa = [];
  devices =
      record {
        id = "d1";
        user_id = "ann";
        name = "Mac";
        platform = "macos";
        public_key = "x";
        signing_public_key = "k";
        approved = true;
        created_at = "t";
      }
      ∷ [];
  recovery = record { recoveries = []; contacts = [] };
  vault = [];
}

abbrev moment : Moment
moment = record { now = 1000; iso = "|"; uuid = "u"; salt = "s"; random = [] }

abbrev put_item : Option String → HttpRequest
put_item authorization = record {
  method = "PUT";
  path = "/vault/items/i-1";
  authorization = authorization;
  since = none;
  body = λ name. if str_eq name "ciphertext" then some "blob" else none;
  base_version = none;
  kdf_memory_kib = none;
  kdf_iterations = none;
  kdf_parallel = none;
}

routed : route "PUT" "/vault/items/i-1" ≡ gated (push "i-1")
unfolding route split_on
routed = refl

routed_approval : route "POST" "/devices/d-2/approve" ≡ ungated (approve "d-2")
unfolding route split_on
routed_approval = refl

stored :
    (handle outside service accounts_rt mfa_rt signed recovery_rt parse world
      (put_item (some "Bearer A.A.A"))
      moment).0.vault
    ≡ record { id = "i-1"; user_id = "ann"; ciphertext = "blob"; version = 1; updated_at = "|" }
      ∷ []
unfolding handle handle_gated route split_on strip_prefix Guard.authenticate Token.verify
    Token.b64url Devices.is_approved DeviceStores.file_get Vault.serve Vault.push Vault.finish_push
    Conflict.resolve_push VaultStores.file_get VaultStores.file_put Keyed.upsert
stored = refl

turned_away :
    (handle outside service accounts_rt mfa_rt signed recovery_rt parse world
      (put_item none)
      moment).1
    ≡ record { status = 401; payload = error "missing bearer token" }
unfolding handle route split_on Guard.authenticate
turned_away = refl

handle-vault_example :
    ((handle outside service accounts_rt mfa_rt signed recovery_rt parse world
        (put_item (some "Bearer A.A.A"))
        moment).0.vault
      ≡ [])
    ⊎ ServedBehind outside service accounts_rt mfa_rt signed recovery_rt parse world
        (put_item (some "Bearer A.A.A"))
        moment
        (handle outside service accounts_rt mfa_rt signed recovery_rt parse world
          (put_item (some "Bearer A.A.A"))
          moment).0
handle-vault_example =
    handle-vault outside service accounts_rt mfa_rt signed recovery_rt parse world
      (put_item (some "Bearer A.A.A")) moment
