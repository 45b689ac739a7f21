-- ===== src/Server/Passkeys.antt =====
-- packages/server/src/auth/passkey.service.ts: WebAuthn registration and assertion. Hashing, base64url,
-- UTF-8, JSON and the verification of signatures are the runtime's: the fields of `Runtime`. Random
-- bytes, the clock and the name of a key are arguments. A `Date.now() + ttl` is in milliseconds.
pub mod Stores
pub mod Service
pub mod Ceremony
pub mod Counters
pub mod Once
mod Tests
use vault_keep.Base.{
  ℕ, ◌+◌, ◌*◌, ◌/◌, ◌%◌, ◌^◌, Option, none, some, Bool, true, false, ◌&&◌, ◌||◌, not, if◌then◌else◌,
  ◌==◌, List, [], ◌∷◌, ◌++◌, map, String, ◌<>◌, str_eq, Thrown, ok, throw, ltb, leb, length, take,
  drop, or_else, truthy,
}
use vault_keep.Base.Int.{ℤ, pos, negsuc}
use vault_keep.Base.Dict.{Dict, get, put, delete}
use vault_keep.Server.Cbor.{
  CborValue, number, bytes, CborEntries, number_key, text_key, get_entry, Run, returned, thrown,
  out_of_fuel, bits_at, eqb_ℤ, decode_cbor, decode_cbor_first,
}
use vault_keep.Server.Cbor

pub record PasskeyRecord : Type 0 where
  pub credential_id : String
  pub user_id : String
  pub public_key_jwk : String
  pub alg : ℤ
  pub sign_count : ℕ
  pub name : String
  pub created_at : String

pub record PasskeyRepository (S : Type 0) : Type 0 where
  pub list_for_user : S → String → List PasskeyRecord
  pub get : S → String → Option PasskeyRecord
  pub create : S → PasskeyRecord → S
  pub update_sign_count : S → String → ℕ → S

pub data CeremonyType : Type 0 where
  webauthn_create : CeremonyType
  webauthn_get : CeremonyType

abbrev pub ceremony_text : CeremonyType → String
ceremony_text webauthn_create = "webauthn.create"
ceremony_text webauthn_get = "webauthn.get"

abbrev pub same_ceremony : CeremonyType → CeremonyType → Bool
same_ceremony webauthn_create webauthn_create = true
same_ceremony webauthn_get webauthn_get = true
same_ceremony _ _ = false

pub record ChallengeRecord : Type 0 where
  pub user_id : String
  pub type : CeremonyType
  pub expires_at : ℕ

pub record PasskeyConfig : Type 0 where
  pub rp_id : String
  pub rp_name : String
  pub origins : List String
  pub challenge_ttl_ms : Option ℕ

abbrev pub supported_algs : List ℤ
supported_algs = negsuc 6 ∷ negsuc 7 ∷ negsuc 256 ∷ []

-- What `JSON.parse` gives: it throws, or gives `null`, or a value with these properties, none for one
-- that is not a text; `shown` is the origin as a template literal prints it.
pub data ClientData : Type 0 where
  malformed : ClientData
  null_data : ClientData
  client_data : Option String → Option String → Option String → String → ClientData

pub record Runtime (Key : Type 0) : Type 0 where
  pub sha256 : List ℕ → List ℕ
  pub utf8 : String → List ℕ
  -- `new TextDecoder().decode(bytes)`, which drops a leading byte order mark
  pub from_utf8 : List ℕ → String
  -- `Buffer.from(bytes).toString("utf8")`, which keeps it
  pub buffer_to_text : List ℕ → String
  pub to_base64url : List ℕ → String
  pub from_base64url : String → List ℕ
  pub parse : String → ClientData
  pub stringify : Dict String → String
  -- `String(value)`
  pub to_string : Option CborValue → String
  -- `createPublicKey({ key: JSON.parse(jwk), format: "jwk" })`
  pub create_public_key : String → Thrown Key
  pub crypto_verify : Option String → List ℕ → Key → List ℕ → Thrown Bool

-- What a ceremony gives: a result, `{ ok: false, reason }`, or an exception that it lets through.
pub data Outcome {ℓ} (A : Type ℓ) : Type ℓ where
  passed : A → Outcome A
  refused : String → Outcome A
  failed : String → Outcome A

abbrev pub proceed {ℓ κ} : {A : Type ℓ} {B : Type κ} → Outcome A → (A → Outcome B) → Outcome B
proceed (passed a) f = f a
proceed (refused r) f = refused r
proceed (failed e) f = failed e

-- `if (!test) return { ok: false, reason }`
abbrev pub require : Bool → String → Outcome (Unit {0})
require true reason = passed tt
require false reason = refused reason

-- `if (!value) return { ok: false, reason }`
abbrev pub require_some {ℓ} : {A : Type ℓ} → Option A → String → Outcome A
require_some (some a) reason = passed a
require_some none reason = refused reason

-- An exception that is let through, and one that is caught.
abbrev pub through {ℓ} : {A : Type ℓ} → Thrown A → Outcome A
through (ok a) = passed a
through (throw e) = failed e

abbrev pub caught {ℓ} : {A : Type ℓ} → Thrown A → (String → String) → Outcome A
caught (ok a) reason = passed a
caught (throw e) reason = refused (reason e)

-- The decoder is given more fuel than there are bytes.
abbrev pub thrown_of {ℓ} : {A : Type ℓ} → Run A → Thrown A
thrown_of (returned a) = ok a
thrown_of (thrown e) = throw e
thrown_of out_of_fuel = throw "out of fuel"

abbrev pub map_of : Option CborValue → Option CborEntries
map_of (some (Cbor.map es)) = some es
map_of _ = none

abbrev pub bytes_of : Option CborValue → Option (List ℕ)
bytes_of (some (bytes bs)) = some bs
bytes_of _ = none

abbrev pub number_of : Option CborValue → Option ℤ
number_of (some (number z)) = some z
number_of _ = none

abbrev pub is_number : ℤ → Option CborValue → Bool
is_number n (some (number z)) = eqb_ℤ z n
is_number n _ = false

abbrev pub is_one_of : List ℤ → ℤ → Bool
is_one_of [] z = false
is_one_of (n ∷ ns) z = eqb_ℤ n z || is_one_of ns z

-- `list.includes(text)`
unfoldable pub includes : List String → String → Bool
includes [] text = false
includes (s ∷ ss) text = let later = includes ss text in if str_eq s text then true else later

-- The state of the service: the rows and the pending challenges.
pub record State (S : Type 0) : Type 0 where
  pub store : S
  pub challenges : Dict ChallengeRecord

pub record Registration : Type 0 where
  pub client_data_json : String
  pub attestation_object : String
  pub name : Option String

pub record Assertion : Type 0 where
  pub credential_id : String
  pub client_data_json : String
  pub authenticator_data : String
  pub signature : String

pub record CreationOptions : Type 0 where
  pub challenge : String
  pub rp_id : String
  pub rp_name : String
  pub handle : String
  pub display_name : String
  pub pub_key_cred_params : List ℤ
  pub exclude_credentials : List String
  pub timeout : ℕ

pub record RequestOptions : Type 0 where
  pub challenge : String
  pub rp_id : String
  pub allow_credentials : List String
  pub timeout : ℕ

-- What `checkAuthData` reads.
pub record AuthData : Type 0 where
  pub sign_count : ℕ
  pub credential : Option (String × CborEntries)

-- `this.ttl`
abbrev pub ttl : PasskeyConfig → ℕ
ttl config = or_else (2 * 60 * 1000) config.challenge_ttl_ms

-- The challenge that the client data names, if it is a text and not empty, and what is left pending.
unfoldable pub pending : Dict ChallengeRecord → Option String → Option ChallengeRecord
pending challenges none = none
pending challenges (some c) = if truthy c then get c challenges else none

-- `if (rec) this.challenges.delete(data.challenge!)`
abbrev pub consume :
    Option ChallengeRecord → Option String → Dict ChallengeRecord → Dict ChallengeRecord
consume (some r) (some c) challenges = delete c challenges
consume (some r) none challenges = challenges
consume none challenge challenges = challenges

unfoldable pub consumed : Dict ChallengeRecord → Option String → Dict ChallengeRecord
consumed challenges challenge = consume (pending challenges challenge) challenge challenges

abbrev pub is_allowed : List String → Option String → Bool
is_allowed origins none = false
is_allowed origins (some origin) = truthy origin && includes origins origin

abbrev pub is_text : String → Option String → Bool
is_text expected none = false
is_text expected (some t) = str_eq t expected

unfoldable pub same_bytes : List ℕ → List ℕ → Bool
same_bytes [] [] = true
same_bytes (a ∷ xs) (b ∷ ys) = let rest = same_bytes xs ys in if a == b then rest else false
same_bytes _ _ = false
