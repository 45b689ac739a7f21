-- ===== src/Server/Accounts.antt =====
-- packages/server/src/auth/account.service.ts over `FileAccountRepository` of store/filedb.ts:
-- registration, login and change of the verifier. Argon2, `toLowerCase` and base64 are the runtime's:
-- the fields of `Runtime`. Random bytes, the new id and the date are arguments.
pub mod Rows
pub mod Login
mod Tests
use Prim.Native.Char.{Char, code}
use Prim.Native.String
use vault_keep.Base.{
  ℕ, zero, suc, ◌+◌, ◌-◌, ◌*◌, ◌/◌, ◌%◌, ◌^◌, Option, none, some, Bool, true, false, not, ◌&&◌,
  ◌||◌, if◌then◌else◌, List, [], ◌∷◌, ◌++◌, map, String, ◌<>◌, Thrown, ok, throw, ◌>>=◌, str_eq,
  truthy, utf16_length, ltb, leb, ◌==◌, or_else, split_on, any, is_some, find?,
}
use vault_keep.Server.Mfa.{padded}
use vault_keep.Base.Keyed.{find_key, string_eq}

pub record Runtime : Type 0 where
  pub to_lower : String → String
  -- `Buffer.from(s).toString("base64")`
  pub base64_text : String → String
  -- `argon2id` of a verifier with a salt
  pub hash_verifier : String → String → Thrown String
  -- `argon2Verify` of a password and a hash; its rejection counts as false
  pub argon2_verify : String → String → Bool

pub record AccountRecord : Type 0 where
  pub id : String
  pub email : String
  pub kdf_salt : String
  pub kdf_memory_kib : ℕ
  pub kdf_iterations : ℕ
  pub kdf_parallel : ℕ
  pub auth_hash : String
  pub created_at : String

pub record RegisterInput : Type 0 where
  pub email : String
  pub auth_verifier : String
  pub kdf_salt : String
  pub kdf_memory_kib : Option ℕ
  pub kdf_iterations : Option ℕ
  pub kdf_parallel : Option ℕ

pub record PublicKdf : Type 0 where
  pub kdf_salt : String
  pub kdf_memory_kib : ℕ
  pub kdf_iterations : ℕ
  pub kdf_parallel : ℕ

-- `/\s/`
abbrev pub is_space : ℕ → Bool
is_space c =
    leb 9 c && leb c 13
    || (c == 32
        || (c == 160
            || (c == 5760
                || (leb 8192 c && leb c 8202
                    || (c == 8232
                        || (c == 8233
                            || (c == 8239 || (c == 8287 || (c == 12288 || c == 65279)))))))))

abbrev pub has_space : String → Bool
has_space String.[] = false
has_space (String.◌∷◌ c s) = is_space (code c) || has_space s

-- a dot that another character follows
abbrev pub dot_inside : String → Bool
dot_inside String.[] = false
dot_inside (String.◌∷◌ c s) = (code c == b'.') && truthy s || dot_inside s

-- `[^@\s]+\.[^@\s]+`, of a text without `@` and spaces
abbrev pub is_domain : String → Bool
is_domain String.[] = false
is_domain (String.◌∷◌ c s) = dot_inside s

abbrev pub is_local-and_domain : List String → Bool
is_local-and_domain (local ∷ domain ∷ []) = truthy local && is_domain domain
is_local-and_domain _ = false

-- `/^[^@\s]+@[^@\s]+\.[^@\s]+$/.test(email)`
unfoldable pub is_email : String → Bool
is_email email = not (has_space email) && is_local-and_domain (split_on b'@' email)

abbrev pub id_of : AccountRecord → String
id_of a = a.id

abbrev pub with_hash : String → AccountRecord → AccountRecord
with_hash hash a = record a { auth_hash = hash }

-- the row that `find` returns is changed in place
unfoldable pub update_row : String → String → List AccountRecord → List AccountRecord
update_row id hash [] = []
update_row id hash (a ∷ s) =
    if str_eq a.id id then with_hash hash a ∷ s else a ∷ update_row id hash s

abbrev pub weak : String → Bool
weak verifier = not (truthy verifier) || ltb (utf16_length verifier) 16

-- `c.charCodeAt(0)`, a surrogate for a character past the sixteen bits
abbrev pub char_code : ℕ → ℕ
char_code c = if ltb c 65536 then c else 55296 + (c - 65536) / 1024

-- `h = (h * 31 + c.charCodeAt(0)) >>> 0`
unfoldable pub decoy_number : ℕ → String → ℕ
decoy_number h String.[] = h
decoy_number h (String.◌∷◌ c s) = decoy_number ((h * 31 + char_code (code c)) % 2 ^ 32) s

unfoldable pub decoy_salt : Runtime → String → String
decoy_salt rt email = rt.base64_text (padded 16 (decoy_number 0 email))

module _ (rt : Runtime) where
  abbrev pub email_key : AccountRecord → String
  email_key a = rt.to_lower a.email

  unfoldable pub find_by_email : List AccountRecord → String → Option AccountRecord
  find_by_email s email = find_key email_key (rt.to_lower email) s

  unfoldable pub find_by_id : List AccountRecord → String → Option AccountRecord
  find_by_id s id = find_key id_of id s

  unfoldable pub create : List AccountRecord → AccountRecord → Thrown (List AccountRecord)
  create s rec =
      if is_some (find_by_email s rec.email)
      then throw "email already registered"
      else ok (s ++ rec ∷ [])

  unfoldable pub update_auth_hash :
      List AccountRecord → String → String → Thrown (List AccountRecord)
  update_auth_hash s id hash =
      if not (is_some (find_by_id s id)) then throw "no such account" else ok (update_row id hash s)

  abbrev pub new_record : RegisterInput → String → String → String → AccountRecord
  new_record input id hash now = record {
    id = id;
    email = input.email;
    kdf_salt = input.kdf_salt;
    kdf_memory_kib = or_else 65536 input.kdf_memory_kib;
    kdf_iterations = or_else 3 input.kdf_iterations;
    kdf_parallel = or_else 4 input.kdf_parallel;
    auth_hash = hash;
    created_at = now;
  }

  -- Returns the new account's id, which is the argument, with the accounts.
  unfoldable pub register :
      List AccountRecord
      → RegisterInput
      → String
      → String
      → String
      → Thrown (String × List AccountRecord)
  register s input id salt now =
      if not (is_email input.email)
      then throw "invalid email"
      else if weak input.auth_verifier
      then throw "auth verifier too weak"
      else rt.hash_verifier input.auth_verifier salt >>= λ hash.
          create s (new_record input id hash now) >>= λ created. ok (id, created)

  abbrev pub email_of : Option AccountRecord → Option String
  email_of none = none
  email_of (some a) = some a.email

  unfoldable pub email_for : List AccountRecord → String → Option String
  email_for s user_id = email_of (find_by_id s user_id)

  abbrev pub id_of_found : Option AccountRecord → Option String
  id_of_found none = none
  id_of_found (some a) = some a.id

  unfoldable pub id_for : List AccountRecord → String → Option String
  id_for s email = id_of_found (find_by_email s email)

  abbrev pub params_of : String → Option AccountRecord → PublicKdf
  params_of email none = record {
    kdf_salt = decoy_salt rt email;
    kdf_memory_kib = 65536;
    kdf_iterations = 3;
    kdf_parallel = 4;
  }
  params_of email (some a) = record {
    kdf_salt = a.kdf_salt;
    kdf_memory_kib = a.kdf_memory_kib;
    kdf_iterations = a.kdf_iterations;
    kdf_parallel = a.kdf_parallel;
  }

  unfoldable pub kdf_params_for : List AccountRecord → String → PublicKdf
  kdf_params_for s email = params_of email (find_by_email s email)

  unfoldable pub reset_verifier :
      List AccountRecord → String → String → String → Thrown (List AccountRecord)
  reset_verifier s user_id verifier salt =
      if weak verifier
      then throw "auth verifier too weak"
      else rt.hash_verifier verifier salt >>= λ hash. update_auth_hash s user_id hash

  abbrev pub check_found : Option AccountRecord → String → Option String
  check_found none verifier = none
  check_found (some a) verifier = if rt.argon2_verify verifier a.auth_hash then some a.id else none

  -- The hash that is computed for an unknown email, and thrown away, is only for its time.
  unfoldable pub verify_login : List AccountRecord → String → String → Option String
  verify_login s email verifier = check_found (find_by_email s email) verifier
