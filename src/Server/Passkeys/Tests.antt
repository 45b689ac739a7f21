-- ===== src/Server/Passkeys/Tests.antt =====
-- Ceremonies of one user, with toy texts for what the browser sends.
use vault_keep.Base.{
  ℕ, none, some, true, false, if◌then◌else◌, ◌==◌, List, [], ◌∷◌, ◌++◌, String, str_eq, ok, ◌≡◌,
  ◌≢◌, refl, eq_iff, length, ap,
}
use vault_keep.Base.Int.{negsuc}
use vault_keep.Base.Dict.{Dict, get, delete}
use vault_keep.Base.Keyed.{find_key-key, string_eq}
use vault_keep.Server.Cbor.{
  decode_cbor, decode_cbor_first, decode_item, decode_major, decode_items, decode_entries,
  read_length, set_entry, get_entry,
}
use vault_keep.Server.Passkeys.{
  PasskeyRecord, PasskeyConfig, ClientData, null_data, client_data, Runtime, passed, refused, State,
  ChallengeRecord, webauthn_create, webauthn_get, Registration, Assertion, pending, consumed,
  includes, same_bytes,
}
use vault_keep.Server.Passkeys.Service.{
  cose_to_jwk, check_client_data, check_auth_data, verify_assertion, verify_registration, Call,
  request_options, asserting, serve_all,
}
use vault_keep.Server.Passkeys.Stores.{
  file, row_key, file_get, file_create, file_update, file-IsRepository,
}
use vault_keep.Server.Passkeys.Ceremony.{IsClient, IsSigned, verify_assertion-accepted}
use vault_keep.Server.Passkeys.Once.{verify_assertion-once}
use vault_keep.Server.Passkeys.Counters.{
  Keeps, IsKeyed, serve_all-Keeps, verify_registration-accepted,
}

abbrev sevens : List ℕ
sevens =
    7 ∷ 7 ∷ 7 ∷ 7 ∷ 7 ∷ 7 ∷ 7 ∷ 7 ∷ 7 ∷ 7 ∷ 7 ∷ 7 ∷ 7 ∷ 7 ∷ 7 ∷ 7 ∷ 7 ∷ 7 ∷ 7 ∷ 7 ∷ 7 ∷ 7 ∷ 7 ∷ 7
    ∷ 7 ∷ 7 ∷ 7 ∷ 7 ∷ 7 ∷ 7 ∷ 7 ∷ 7 ∷ []

abbrev cose_bytes : List ℕ
cose_bytes = 165 ∷ 1 ∷ 2 ∷ 3 ∷ 38 ∷ 32 ∷ 1 ∷ 33 ∷ 65 ∷ 1 ∷ 34 ∷ 65 ∷ 2 ∷ []

abbrev new_auth : List ℕ
new_auth =
    sevens
    ++ 65 ∷ 0 ∷ 0 ∷ 0 ∷ 1 ∷ 0 ∷ 0 ∷ 0 ∷ 0 ∷ 0 ∷ 0 ∷ 0 ∷ 0 ∷ 0 ∷ 0 ∷ 0 ∷ 0 ∷ 0 ∷ 0 ∷ 0 ∷ 0 ∷ 0 ∷ 1
      ∷ 9 ∷ cose_bytes

abbrev attestation : List ℕ
attestation = 161 ∷ 104 ∷ 1 ∷ 1 ∷ 1 ∷ 1 ∷ 1 ∷ 1 ∷ 1 ∷ 1 ∷ 88 ∷ 69 ∷ new_auth

abbrev bytes_of_text : String → List ℕ
bytes_of_text s =
    if str_eq s "create"
    then 1 ∷ []
    else if str_eq s "get"
    then 2 ∷ []
    else if str_eq s "attestation"
    then attestation
    else if str_eq s "auth"
    then sevens ++ 1 ∷ 0 ∷ 0 ∷ 0 ∷ 2 ∷ []
    else 5 ∷ []

abbrev named : ℕ → String
named n = if n == 1 then "c1" else if n == 2 then "c2" else if n == 3 then "c3" else "id"

abbrev text_of_bytes : List ℕ → String
text_of_bytes (n ∷ ns) = named n
text_of_bytes [] = "id"

abbrev browser : String → ClientData
browser s =
    if str_eq s "c1"
    then client_data (some "webauthn.create") (some "c1") (some "https://v") "https://v"
    else if str_eq s "c2"
    then client_data (some "webauthn.get") (some "c2") (some "https://v") "https://v"
    else null_data

abbrev toy : Runtime (List ℕ)
toy = record {
  sha256 = λ bs. sevens;
  utf8 = λ s. [];
  from_utf8 = λ bs. "authData";
  buffer_to_text = text_of_bytes;
  to_base64url = text_of_bytes;
  from_base64url = bytes_of_text;
  parse = browser;
  stringify = λ jwk. "jwk";
  to_string = λ v. "";
  create_public_key = λ jwk. ok [];
  crypto_verify = λ digest signed key signature. ok (length signature == 1);
}

abbrev config : PasskeyConfig
config = record {
  rp_id = "v";
  rp_name = "VaultKeep";
  origins = "https://v" ∷ [];
  challenge_ttl_ms = none;
}

abbrev anns_challenges : Dict ChallengeRecord
anns_challenges =
    ("c1", record { user_id = "ann"; type = webauthn_create; expires_at = 1000 })
    ∷ ("c2", record { user_id = "ann"; type = webauthn_get; expires_at = 1000 })
    ∷ []

abbrev start : State (List PasskeyRecord)
start = record { store = []; challenges = anns_challenges }

abbrev creation : Registration
creation = record { client_data_json = "create"; attestation_object = "attestation"; name = none }

abbrev assertion : Assertion
assertion = record {
  credential_id = "id";
  client_data_json = "get";
  authenticator_data = "auth";
  signature = "sig";
}

abbrev anns_key : PasskeyRecord
anns_key = record {
  credential_id = "id";
  user_id = "ann";
  public_key_jwk = "jwk";
  alg = negsuc 6;
  sign_count = 1;
  name = "Passkey";
  created_at = "now";
}

abbrev with_key : State (List PasskeyRecord)
with_key = record {
  store = anns_key ∷ [];
  challenges = ("c2", record { user_id = "ann"; type = webauthn_get; expires_at = 1000 }) ∷ [];
}

registers :
    verify_registration toy config file start 10 "now" "ann" creation ≡ (with_key, passed "id")
unfolding verify_registration check_client_data check_auth_data cose_to_jwk pending consumed
    includes same_bytes decode_cbor decode_cbor_first decode_item decode_major decode_items
    decode_entries read_length set_entry get_entry file_get file_create get delete
registers = refl

accepts : (verify_assertion toy config file with_key 20 "ann" assertion).1 ≡ passed tt
unfolding verify_assertion check_client_data check_auth_data pending consumed includes same_bytes
    file_get file_update get delete
accepts = refl

replayed :
    (verify_assertion toy config file
      (verify_assertion toy config file with_key 20 "ann" assertion).0
      30
      "ann"
      assertion).1
    ≡ refused "unknown or replayed challenge"
unfolding verify_assertion check_client_data check_auth_data pending consumed includes same_bytes
    file_get file_update get delete
replayed = refl

verify_assertion-accepted_example :
    (client : IsClient toy config with_key.challenges 20 "get" "ann" webauthn_get) × IsSigned toy
      config file with_key.store "ann" assertion
    × ((verify_assertion toy config file with_key 20 "ann" assertion).0.challenges
        ≡ delete client.challenge with_key.challenges)
verify_assertion-accepted_example =
    verify_assertion-accepted toy config file with_key 20 "ann" assertion accepts

-- A later call makes another challenge.
abbrev later_calls : List Call
later_calls = request_options 25 (3 ∷ []) "ann" ∷ asserting 26 "ann" assertion ∷ []

false-ne-true : false ≡ true → ⊥
false-ne-true h = cc

two-ne-three : ◌≢◌ {A = String} "c3" "c2"
two-ne-three e = false-ne-true ((eq_iff "c3" "c2").1 e)

verify_assertion-once_example :
    (verify_assertion toy config file
      (serve_all toy config file
        (verify_assertion toy config file with_key 20 "ann" assertion).0
        later_calls)
      30
      "ann"
      assertion).1
    ≢ passed tt
verify_assertion-once_example =
    verify_assertion-once toy config file with_key 20 "ann" assertion "c2"
      (some "webauthn.get", some "https://v", "https://v", refl) accepts later_calls
      (two-ne-three, (tt, tt)) 30 "ann" assertion
      (some "webauthn.get", some "https://v", "https://v", refl)

with_key-IsKeyed : IsKeyed file with_key.store
unfolding file_get
with_key-IsKeyed id r h = find_key-key row_key id with_key.store h

serve_all-Keeps_example :
    Keeps
      (file.get with_key.store "id")
      (file.get (serve_all toy config file with_key later_calls).store "id")
serve_all-Keeps_example =
    serve_all-Keeps file file-IsRepository toy config with_key later_calls with_key-IsKeyed "id"

registered : (verify_registration toy config file start 10 "now" "ann" creation).1 ≡ passed "id"
registered = ap (λ r. r.1) registers

verify_registration-accepted_example :
    (client : IsClient toy config start.challenges 10 "create" "ann" webauthn_create) × (file.get
        start.store "id"
      ≡ none)
    × ((rec : PasskeyRecord) × (file.get
            (verify_registration toy config file start 10 "now" "ann" creation).0.store
            "id"
          ≡ some rec)
        × (rec.user_id ≡ "ann"))
    × ((verify_registration toy config file start 10 "now" "ann" creation).0.challenges
        ≡ delete client.challenge start.challenges)
verify_registration-accepted_example =
    verify_registration-accepted file file-IsRepository toy config start 10 "now" "ann" creation
      "id" registered
