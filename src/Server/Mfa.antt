-- ===== src/Server/Mfa.antt =====
-- packages/server/src/mfa/{totp,mfa}.service.ts: one-time codes and the two-phase enrollment. The
-- HMAC and `toUpperCase` are the runtime's: the fields of `Runtime`. Random bytes are arguments.
pub mod Codes
pub mod Enrollment
pub mod Stores
mod Tests
use Prim.Native.Char.{Char, code}
use Prim.Native.String
use vault_keep.Base.{
  ℕ, zero, suc, ◌+◌, ◌-◌, ◌*◌, ◌/◌, ◌%◌, ◌^◌, Option, none, some, Bool, true, false, not, ◌&&◌,
  ◌||◌, if◌then◌else◌, List, [], ◌∷◌, ◌++◌, map, String, ◌<>◌, Thrown, ok, throw, ◌>>=◌, str_eq,
  ltb, leb, ◌==◌, get_elem?, set, take, drop, length, or_else,
}

pub record Runtime : Type 0 where
  -- `createHmac("sha1", key).update(buf).digest()`
  pub hmac_sha1 : List ℕ → List ℕ → List ℕ
  pub to_upper : String → String

abbrev pub step_seconds : ℕ
step_seconds = 30

abbrev pub digits : ℕ
digits = 6

abbrev pub b32 : String
b32 = "ABCDEFGHIJKLMNOPQRSTUVWXYZ234567"

-- `n.toString(2).padStart(w, "0")`, for a number below 2 ^ w
unfoldable pub bits_of : ℕ → ℕ → List Bool
bits_of zero n = []
bits_of (suc w) n = bits_of w (n / 2) ++ ((n % 2) == 1) ∷ []

-- `parseInt(bits, 2)`, onto what is read already
unfoldable pub read_bits : ℕ → List Bool → ℕ
read_bits n [] = n
read_bits n (b ∷ bs) = read_bits (2 * n + (if b then 1 else 0)) bs

-- `for (let i = 0; i + w <= bits.length; i += w) parseInt(bits.slice(i, i + w), 2)`. The fuel is the
-- number of bits: a turn uses `w` of them.
unfoldable pub groups : ℕ → ℕ → List Bool → List ℕ
groups zero w bits = []
groups (suc fuel) w bits =
    let rest = groups fuel w (drop w bits) in
    if leb w (length bits) then read_bits 0 (take w bits) ∷ rest else []

-- `s[i]`
abbrev pub char_at : String → ℕ → Char
char_at String.[] i = "A"
char_at (String.◌∷◌ c s) zero = c
char_at (String.◌∷◌ c s) (suc i) = char_at s i

-- `s.indexOf(c)`, none for -1
abbrev pub index_of : String → Char → Option ℕ
index_of String.[] c = none
index_of (String.◌∷◌ d s) c =
    let later : Option ℕ = elim (index_of s c) [ none ↦ none | some i ↦ some (suc i) ] in
    if code d == code c then some 0 else later

abbrev pub all_bits : ℕ → List ℕ → List Bool
all_bits w [] = []
all_bits w (b ∷ bs) = bits_of w b ++ all_bits w bs

abbrev pub spell : List ℕ → String
spell [] = String.[]
spell (v ∷ vs) = String.◌∷◌ (char_at b32 v) (spell vs)

-- The argument is what `randomBytes` gives.
unfoldable pub generate_secret : List ℕ → String
generate_secret buf = let bits = all_bits 8 buf in spell (groups (length bits) 5 bits)

abbrev pub char_bits : Option ℕ → List Bool
char_bits none = []
char_bits (some v) = bits_of 5 v

abbrev pub decode_bits : String → List Bool
decode_bits String.[] = []
decode_bits (String.◌∷◌ c s) = char_bits (index_of b32 c) ++ decode_bits s

-- The padding is no letter of the alphabet, so it is skipped with the other characters.
unfoldable pub b32decode : Runtime → String → List ℕ
b32decode rt s = let bits = decode_bits (rt.to_upper s) in groups (length bits) 8 bits

-- `buf.writeBigUInt64BE(n)`: the `w` low bytes, the highest first
unfoldable pub big_endian : ℕ → ℕ → List ℕ
big_endian zero n = []
big_endian (suc w) n = big_endian w (n / 256) ++ (n % 256) ∷ []

-- `n.toString().padStart(w, "0")`, for a number below 10 ^ w
unfoldable pub padded : ℕ → ℕ → String
padded zero n = ""
padded (suc w) n = padded w (n / 10) <> String.◌∷◌ (char_at "0123456789" (n % 10)) String.[]

abbrev pub byte : List ℕ → ℕ → ℕ
byte bytes i = or_else 0 (get_elem? bytes i)

-- The shifted bytes do not overlap, so `|` adds them.
unfoldable pub truncated : List ℕ → ℕ
truncated hmac =
    let offset = byte hmac (length hmac - 1) % 16 in
    (byte hmac offset % 128) * 2 ^ 24
    + byte hmac (offset + 1) * 2 ^ 16
    + byte hmac (offset + 2) * 2 ^ 8
    + byte hmac (offset + 3)

unfoldable pub code_at : Runtime → String → ℕ → String
code_at rt secret counter =
    padded digits
      (truncated (rt.hmac_sha1 (b32decode rt secret) (big_endian 8 counter)) % 10 ^ digits)

abbrev pub counter_at : ℕ → ℕ
counter_at now = now / 1000 / step_seconds

unfoldable pub current_code : Runtime → String → ℕ → String
current_code rt secret now = code_at rt secret (counter_at now)

abbrev pub drifts : Runtime → String → String → ℕ → Thrown Bool
drifts rt secret token zero = throw "The value of \"value\" is out of range"
drifts rt secret token (suc before) = ok (
    str_eq (code_at rt secret before) token
    || (str_eq (code_at rt secret (suc before)) token
        || str_eq (code_at rt secret (suc (suc before))) token))

-- One step of drift each way; in the first step of 1970 the step before has no number to write.
unfoldable pub verify_totp : Runtime → String → String → ℕ → Thrown Bool
verify_totp rt secret token now = drifts rt secret token (counter_at now)

pub record MfaRecord : Type 0 where
  pub user_id : String
  pub secret : String
  pub confirmed : Bool

-- What the service asks of a store.
pub record MfaRepository (S : Type 0) : Type 0 where
  pub get : S → String → Option MfaRecord
  pub upsert : S → MfaRecord → S

module _ {S : Type 0} (repo : MfaRepository S) (rt : Runtime) where
  -- Returns the new secret; the otpauth address that goes with it is a rendering of it.
  unfoldable pub start : S → String → List ℕ → String × S
  start s user_id random =
      let secret = generate_secret random in
      (secret, repo.upsert s (record { user_id = user_id; secret = secret; confirmed = false }))

  abbrev pub confirmed_with : S → MfaRecord → Thrown Bool → Thrown Bool × S
  confirmed_with s rec (throw e) = (throw e, s)
  confirmed_with s rec (ok false) = (ok false, s)
  confirmed_with s rec (ok true) = (
    ok true,
    repo.upsert s (record { user_id = rec.user_id; secret = rec.secret; confirmed = true }),
  )

  abbrev pub confirm_found : S → Option MfaRecord → String → ℕ → Thrown Bool × S
  confirm_found s none token now = (ok false, s)
  confirm_found s (some rec) token now = confirmed_with s rec (verify_totp rt rec.secret token now)

  unfoldable pub confirm : S → String → String → ℕ → Thrown Bool × S
  confirm s user_id token now = confirm_found s (repo.get s user_id) token now

  abbrev pub is_confirmed : Option MfaRecord → Bool
  is_confirmed none = false
  is_confirmed (some rec) = rec.confirmed

  unfoldable pub is_enrolled : S → String → Bool
  is_enrolled s user_id = is_confirmed (repo.get s user_id)

  abbrev pub verify_found : Option MfaRecord → String → ℕ → Thrown Bool
  verify_found none token now = ok false
  verify_found (some rec) token now =
      if not rec.confirmed then ok false else verify_totp rt rec.secret token now

  unfoldable pub verify : S → String → String → ℕ → Thrown Bool
  verify s user_id token now = verify_found (repo.get s user_id) token now

pub data Event : Type 0 where
  starting : (user_id : String) → (random : List ℕ) → Event
  confirming : (user_id token : String) → (now : ℕ) → Event

module _ {S : Type 0} (repo : MfaRepository S) (rt : Runtime) where
  unfoldable pub serve : S → Event → S
  serve s (starting user random) = (start repo rt s user random).1
  serve s (confirming user token now) = (confirm repo rt s user token now).1

  unfoldable pub serve_all : S → List Event → S
  serve_all s [] = s
  serve_all s (e ∷ es) = serve_all (serve s e) es
