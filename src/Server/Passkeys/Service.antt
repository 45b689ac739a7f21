-- ===== src/Server/Passkeys/Service.antt =====
-- The operations of `PasskeyService` (packages/server/src/auth/passkey.service.ts).
use vault_keep.Base.{
  ℕ, ◌+◌, ◌*◌, ◌/◌, ◌%◌, ◌^◌, Option, none, some, Bool, true, false, ◌&&◌, ◌||◌, not, if◌then◌else◌,
  ◌==◌, List, [], ◌∷◌, ◌++◌, map, String, ◌<>◌, str_eq, Thrown, ok, throw, ◌>>=◌, ltb, leb, length,
  take, drop, or_else,
}
use vault_keep.Base.Int.{ℤ, pos, negsuc}
use vault_keep.Base.Dict.{Dict, put}
use vault_keep.Server.Cbor.{
  CborValue, CborEntries, number_key, text_key, get_entry, bits_at, eqb_ℤ, decode_cbor,
  decode_cbor_first,
}
use vault_keep.Server.Passkeys.{
  PasskeyRecord, PasskeyRepository, CeremonyType, webauthn_create, webauthn_get, ceremony_text,
  same_ceremony, ChallengeRecord, PasskeyConfig, supported_algs, ClientData, malformed, null_data,
  client_data, Runtime, Outcome, passed, refused, failed, proceed, require, require_some, through,
  caught, thrown_of, map_of, bytes_of, number_of, is_number, is_one_of, State, Registration,
  Assertion, CreationOptions, RequestOptions, AuthData, ttl, pending, consumed, is_allowed, is_text,
  same_bytes,
}

abbrev pub guard : {A : Type 0} → Bool → String → Thrown A → Thrown A
guard test message rest = if test then rest else throw message

abbrev pub present : {A : Type 0} → Option A → String → Thrown A
present (some a) message = ok a
present none message = throw message

-- `existing.map((c) => c.credentialId)`
abbrev pub credential_ids : List PasskeyRecord → List String
credential_ids = map λ c. c.credential_id

abbrev pub is_empty : List PasskeyRecord → Bool
is_empty [] = true
is_empty (_ ∷ _) = false

-- `(a << 24 | b << 16 | c << 8 | d) >>> 0`, of four bytes
abbrev pub counter_of : List ℕ → ℕ
counter_of auth =
    bits_at auth (some 33) * 2 ^ 24
    + bits_at auth (some 34) * 2 ^ 16
    + bits_at auth (some 35) * 2 ^ 8
    + bits_at auth (some 36)

abbrev pub id_length : List ℕ → ℕ
id_length auth = bits_at auth (some 53) * 2 ^ 8 + bits_at auth (some 54)

abbrev pub flags_of : List ℕ → ℕ
flags_of auth = bits_at auth (some 32)

module _ {Key : Type 0} (rt : Runtime Key) where
  -- `cose.get(z)`, and the bytes there.
  abbrev pub at : CborEntries → ℤ → Option CborValue
  at cose z = get_entry (number_key z) cose

  abbrev pub coordinate : CborEntries → ℤ → String → Thrown (List ℕ)
  coordinate cose z message = present (bytes_of (at cose z)) message

  abbrev pub ec_key : CborEntries → ℤ → Thrown (Dict String × ℤ)
  ec_key cose alg = guard (is_number (pos 1) (at cose (negsuc 0))) "EC curve must be P-256" (
      coordinate cose (negsuc 1) "EC coords" >>= λ x.
      coordinate cose (negsuc 2) "EC coords" >>= λ y. ok (
        ("kty", "EC") ∷ ("crv", "P-256") ∷ ("x", rt.to_base64url x) ∷ ("y", rt.to_base64url y) ∷ [],
        alg,
      ))

  abbrev pub okp_key : CborEntries → ℤ → Thrown (Dict String × ℤ)
  okp_key cose alg = guard (is_number (pos 6) (at cose (negsuc 0))) "OKP curve must be Ed25519" (
      coordinate cose (negsuc 1) "OKP x" >>= λ x.
      ok (("kty", "OKP") ∷ ("crv", "Ed25519") ∷ ("x", rt.to_base64url x) ∷ [], alg))

  abbrev pub rsa_key : CborEntries → ℤ → Thrown (Dict String × ℤ)
  rsa_key cose alg = coordinate cose (negsuc 0) "RSA params" >>= λ n.
      coordinate cose (negsuc 1) "RSA params" >>= λ e.
      ok (("kty", "RSA") ∷ ("n", rt.to_base64url n) ∷ ("e", rt.to_base64url e) ∷ [], alg)

  abbrev pub key_for : CborEntries → ℤ → Thrown (Dict String × ℤ)
  key_for cose alg =
      let kty = at cose (pos 1) in
      if is_number (pos 2) kty && eqb_ℤ alg (negsuc 6)
      then ec_key cose alg
      else if is_number (pos 1) kty && eqb_ℤ alg (negsuc 7)
      then okp_key cose alg
      else if is_number (pos 3) kty && eqb_ℤ alg (negsuc 256)
      then rsa_key cose alg
      else throw ("kty " <> rt.to_string kty)

  unfoldable pub cose_to_jwk : CborEntries → Thrown (Dict String × ℤ)
  cose_to_jwk cose =
      let message = "alg " <> rt.to_string (at cose (pos 3)) in
      present (number_of (at cose (pos 3))) message >>= λ alg.
      guard (is_one_of supported_algs alg) message (key_for cose alg)

  module _ (config : PasskeyConfig) where
    -- The checks on the client data once it is parsed and the challenge is taken.
    abbrev pub check_challenge :
        Option ChallengeRecord
        → ℕ
        → String
        → CeremonyType
        → Option String
        → String
        → Outcome (Unit {0})
    check_challenge rec now user expected origin shown =
        proceed (require_some rec "unknown or replayed challenge") λ r.
          proceed
            (require (same_ceremony r.type expected && str_eq r.user_id user)
              "unknown or replayed challenge")
            λ _.
              proceed (require (not (ltb r.expires_at now)) "challenge expired")
                λ _. require (is_allowed config.origins origin) ("origin not allowed: " <> shown)

    abbrev pub check_parsed :
        Dict ChallengeRecord
        → ℕ
        → ClientData
        → String
        → CeremonyType
        → Dict ChallengeRecord × Outcome (Unit {0})
    check_parsed challenges now malformed user expected =
        (challenges, refused "malformed clientDataJSON")
    check_parsed challenges now null_data user expected =
        (challenges, failed "Cannot read properties of null (reading 'type')")
    check_parsed challenges now (client_data type challenge origin shown) user expected =
        if is_text (ceremony_text expected) type
        then (
          consumed challenges challenge,
          check_challenge (pending challenges challenge) now user expected origin shown,
        )
        else (challenges, refused "wrong ceremony type")

    unfoldable pub check_client_data :
        Dict ChallengeRecord
        → ℕ
        → String
        → String
        → CeremonyType
        → Dict ChallengeRecord × Outcome (Unit {0})
    check_client_data challenges now json user expected =
        check_parsed challenges now (rt.parse (rt.buffer_to_text (rt.from_base64url json))) user
          expected

    abbrev pub attested : List ℕ → Outcome (String × CborEntries)
    attested auth =
        proceed (require ((flags_of auth / 64) % 2 == 1) "no attested credential data") λ _.
          proceed (require (leb (55 + id_length auth) (length auth)) "authData truncated") λ _.
            proceed
              (through
                (thrown_of (decode_cbor_first rt.from_utf8 (drop (55 + id_length auth) auth))))
              λ (value, rest).
                proceed (require_some (map_of (some value)) "malformed COSE key") λ cose_key.
                  passed (rt.to_base64url (take (id_length auth) (drop 55 auth)), cose_key)

    abbrev pub with_credential : List ℕ → Bool → Outcome AuthData
    with_credential auth false = passed record { sign_count = counter_of auth; credential = none }
    with_credential auth true =
        proceed (attested auth)
          λ credential. passed record { sign_count = counter_of auth; credential = some credential }

    unfoldable pub check_auth_data : List ℕ → Bool → Outcome AuthData
    check_auth_data auth require_credential =
        proceed (require (leb 37 (length auth)) "authData too short") λ _.
          proceed
            (require (same_bytes (take 32 auth) (rt.sha256 (rt.utf8 config.rp_id))) "rpId mismatch")
            λ _.
              proceed (require (flags_of auth % 2 == 1) "user not present")
                λ _. with_credential auth require_credential

    unfoldable pub mint_challenge :
        Dict ChallengeRecord → ℕ → List ℕ → String → CeremonyType → Dict ChallengeRecord × String
    mint_challenge challenges now random user type =
        let challenge = rt.to_base64url random in
        (
          put challenge record { user_id = user; type = type; expires_at = now + ttl config }
              challenges,
          challenge,
        )

    module _ {S : Type 0} (repo : PasskeyRepository S) where
      unfoldable pub registration_options :
          State S → ℕ → List ℕ → String → String → State S × CreationOptions
      registration_options st now random user email =
          let minted = mint_challenge st.challenges now random user webauthn_create in
          (
            record st { challenges = minted.0 },
            record {
              challenge = minted.1;
              rp_id = config.rp_id;
              rp_name = config.rp_name;
              handle = rt.to_base64url (rt.utf8 user);
              display_name = email;
              pub_key_cred_params = supported_algs;
              exclude_credentials = credential_ids (repo.list_for_user st.store user);
              timeout = ttl config;
            },
          )

      unfoldable pub assertion_options : State S → ℕ → List ℕ → String → State S × RequestOptions
      assertion_options st now random user =
          let creds = repo.list_for_user st.store user in
          let minted = mint_challenge st.challenges now random user webauthn_get in
          (
            record st { challenges = minted.0 },
            record {
              challenge = minted.1;
              rp_id = config.rp_id;
              allow_credentials = credential_ids creds;
              timeout = ttl config;
            },
          )

      unfoldable pub has_passkeys : State S → String → Bool
      has_passkeys st user = not (is_empty (repo.list_for_user st.store user))

      -- `if (await this.repo.get(credentialId!)) return ...`
      abbrev pub is_new : Option PasskeyRecord → Bool
      is_new none = true
      is_new (some r) = false

      abbrev pub new_passkey :
          String → Registration → String → String → ℤ → ℕ → String → PasskeyRecord
      new_passkey user input id jwk alg count created_at = record {
        credential_id = id;
        user_id = user;
        public_key_jwk = jwk;
        alg = alg;
        sign_count = count;
        name = or_else "Passkey" input.name;
        created_at = created_at;
      }

      -- What is left of a registration once the client data is good: the rows with the new one, and its id.
      abbrev pub register_new : S → String → Registration → String → Outcome (S × String)
      register_new s user input created_at =
          proceed
            (caught
              (thrown_of (decode_cbor rt.from_utf8 (rt.from_base64url input.attestation_object)))
              (λ e. "malformed attestation object"))
            λ att.
              proceed (require_some (map_of (some att)) "malformed attestation object") λ entries.
                proceed
                  (require_some (bytes_of (get_entry (text_key "authData") entries))
                    "missing authData")
                  λ auth. proceed (check_auth_data auth true) λ parsed.
                    proceed (require_some parsed.credential "no attested credential data")
                      λ (id, cose_key).
                        proceed (require (is_new (repo.get s id)) "credential already registered")
                          λ _.
                            proceed
                              (caught (cose_to_jwk cose_key)
                                (λ e. "unsupported credential key: " <> e))
                              λ (jwk, alg). passed (
                                repo.create s (
                                    new_passkey user input id (rt.stringify jwk) alg
                                      parsed.sign_count created_at),
                                id,
                              )

      abbrev pub settle :
          {A : Type 0} → S → Dict ChallengeRecord → Outcome (S × A) → State S × Outcome A
      settle s challenges (passed (t, a)) =
          (record { store = t; challenges = challenges }, passed a)
      settle s challenges (refused reason) =
          (record { store = s; challenges = challenges }, refused reason)
      settle s challenges (failed e) = (record { store = s; challenges = challenges }, failed e)

      unfoldable pub verify_registration :
          State S → ℕ → String → String → Registration → State S × Outcome String
      verify_registration st now created_at user input =
          let (challenges, client) =
            check_client_data st.challenges now input.client_data_json user webauthn_create in
          settle st.store challenges
            (proceed client λ _. register_new st.store user input created_at)

      -- The counter's check, and the rows after it.
      abbrev pub count_up : S → PasskeyRecord → ℕ → Outcome (S × Unit {0})
      count_up s cred count =
          if ltb 0 count || ltb 0 cred.sign_count
          then if leb count cred.sign_count
            then refused "sign count regression (possible cloned key)"
            else passed (repo.update_sign_count s cred.credential_id count, tt)
          else passed (s, tt)

      abbrev pub digest_for : ℤ → Option String
      digest_for alg = if eqb_ℤ alg (negsuc 7) then none else some "sha256"

      -- An exception of `cryptoVerify` counts as a signature that is not valid.
      abbrev pub is_valid : Thrown Bool → Bool
      is_valid (ok b) = b
      is_valid (throw e) = false

      abbrev pub signed_data : Assertion → List ℕ
      signed_data input =
          rt.from_base64url input.authenticator_data
          ++ rt.sha256 (rt.from_base64url input.client_data_json)

      abbrev pub owned_by : String → PasskeyRecord → Bool
      owned_by user cred = str_eq cred.user_id user

      -- What is left of an assertion once the client data is good.
      abbrev pub assert_known : S → String → Assertion → Outcome (S × Unit {0})
      assert_known s user input =
          proceed (require_some (repo.get s input.credential_id) "unknown credential") λ cred.
            proceed (require (owned_by user cred) "unknown credential") λ _.
              proceed (check_auth_data (rt.from_base64url input.authenticator_data) false) λ parsed.
                proceed (through (rt.create_public_key cred.public_key_jwk)) λ key.
                  let valid = is_valid (
                    rt.crypto_verify (digest_for cred.alg) (signed_data input) key
                      (rt.from_base64url input.signature)) in
                  proceed (require valid "invalid signature") λ _. count_up s cred parsed.sign_count

      unfoldable pub verify_assertion :
          State S → ℕ → String → Assertion → State S × Outcome (Unit {0})
      verify_assertion st now user input =
          let (challenges, client) =
            check_client_data st.challenges now input.client_data_json user webauthn_get in
          settle st.store challenges (proceed client λ _. assert_known st.store user input)

-- A call of the service, with the clock and the random bytes that it reads.
pub data Call : Type 0 where
  create_options : ℕ → List ℕ → String → String → Call
  request_options : ℕ → List ℕ → String → Call
  registering : ℕ → String → String → Registration → Call
  asserting : ℕ → String → Assertion → Call

module _ {Key S : Type 0} (rt : Runtime Key) (config : PasskeyConfig)
    (repo : PasskeyRepository S) where
  unfoldable pub serve : State S → Call → State S
  serve st (create_options now random user email) =
      (registration_options rt config repo st now random user email).0
  serve st (request_options now random user) =
      (assertion_options rt config repo st now random user).0
  serve st (registering now created_at user input) =
      (verify_registration rt config repo st now created_at user input).0
  serve st (asserting now user input) = (verify_assertion rt config repo st now user input).0

  unfoldable pub serve_all : State S → List Call → State S
  serve_all st [] = st
  serve_all st (c ∷ cs) = serve_all (serve st c) cs
