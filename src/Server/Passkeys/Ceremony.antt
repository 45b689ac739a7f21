-- ===== src/Server/Passkeys/Ceremony.antt =====
-- What an accepted ceremony has shown, and the one use of its challenge.
use vault_keep.Base.{
  ℕ, ◌%◌, ◌≤◌, ◌<◌, Option, none, some, Bool, true, false, not, ◌||◌, ◌&&◌, ◌==◌, List, ◌≡◌, ◌⊎◌,
  inl, inr, ◌∙◌, ap, sym, refl, arith, String, str_eq, eq_iff, ltb, leb, take, length, Thrown, ok,
  throw, truthy, Bool-cases,
}
use vault_keep.Base.Dict.{Dict, get, delete}
use vault_keep.Server.Passkeys.{
  PasskeyRecord, PasskeyRepository, CeremonyType, webauthn_create, webauthn_get, ceremony_text,
  same_ceremony, ChallengeRecord, PasskeyConfig, ClientData, malformed, null_data, client_data,
  Runtime, Outcome, passed, refused, failed, proceed, require, require_some, through, State,
  Assertion, AuthData, pending, consume, consumed, is_allowed, is_text, same_bytes, includes,
}
use vault_keep.Server.Passkeys.Service.{
  check_client_data, check_parsed, check_challenge, check_auth_data, counter_of, flags_of, settle,
  assert_known, count_up, digest_for, is_valid, signed_data, owned_by, verify_assertion,
}

pub proceed-passed :
    {A B : Type 0} (o : Outcome A) (f : A → Outcome B) {b : B}
    → proceed o f ≡ passed b
    → (a : A) × (o ≡ passed a) × (f a ≡ passed b)
proceed-passed (passed a) f h = (a, refl, h)
proceed-passed (refused r) f h = cc
proceed-passed (failed e) f h = cc

pub require-passed :
    (t : Bool) (reason : String) {u : Unit {0}} → require t reason ≡ passed u → t ≡ true
require-passed true reason h = refl
require-passed false reason h = cc

pub passed_inj : {A : Type 0} {a b : A} → passed a ≡ passed b → a ≡ b
passed_inj h = cc

pub require_some-passed :
    {A : Type 0} (o : Option A) (reason : String) {a : A}
    → require_some o reason ≡ passed a
    → o ≡ some a
require_some-passed (some x) reason h = ap some (passed_inj h)
require_some-passed none reason h = cc

pub through-passed : {A : Type 0} (o : Thrown A) {a : A} → through o ≡ passed a → o ≡ ok a
through-passed (ok x) h = ap ok (passed_inj h)
through-passed (throw e) h = cc

same_ceremony_eq : (s t : CeremonyType) → same_ceremony s t ≡ true → s ≡ t
same_ceremony_eq webauthn_create webauthn_create h = refl
same_ceremony_eq webauthn_create webauthn_get h = cc
same_ceremony_eq webauthn_get webauthn_create h = cc
same_ceremony_eq webauthn_get webauthn_get h = refl

both-true : (a b : Bool) → (a && b) ≡ true → (a ≡ true) × (b ≡ true)
both-true true true h = (refl, refl)
both-true true false h = cc
both-true false b h = cc

none-not-some : {A : Type 0} {a : A} → none ≡ some a → ⊥
none-not-some h = cc

refused-not-passed : {A : Type 0} {reason : String} {a : A} → refused reason ≡ passed a → ⊥
refused-not-passed h = cc

in_time : (limit now : ℕ) → not (ltb limit now) ≡ true → now ≤ limit
in_time limit now h = ground arith

-- A challenge of this user and ceremony was pending and has not expired.
pub record IsFresh (challenges : Dict ChallengeRecord) (challenge : String) (now : ℕ)
    (user : String) (expected : CeremonyType) : Type 0 where
  pub rec : ChallengeRecord
  pub is_pending : get challenge challenges ≡ some rec
  pub of_user : rec.user_id ≡ user
  pub of_type : rec.type ≡ expected
  pub in_time : now ≤ rec.expires_at

-- The client data of a ceremony that its checks let through.
pub record IsClient {Key : Type 0} (rt : Runtime Key) (config : PasskeyConfig)
    (challenges : Dict ChallengeRecord) (now : ℕ) (json user : String) (expected : CeremonyType)
    : Type 0 where
  pub challenge : String
  pub origin : String
  pub shown : String
  pub parsed :
      rt.parse (rt.buffer_to_text (rt.from_base64url json))
      ≡ client_data (some (ceremony_text expected)) (some challenge) (some origin) shown
  pub fresh : IsFresh challenges challenge now user expected
  pub allowed : includes config.origins origin ≡ true

pub record IsSigned {Key S : Type 0} (rt : Runtime Key) (config : PasskeyConfig)
    (repo : PasskeyRepository S) (s : S) (user : String) (input : Assertion) : Type 0 where
  pub cred : PasskeyRecord
  pub key : Key
  pub registered : repo.get s input.credential_id ≡ some cred
  pub own : cred.user_id ≡ user
  pub for_site :
      same_bytes
        (take 32 (rt.from_base64url input.authenticator_data))
        (rt.sha256 (rt.utf8 config.rp_id))
      ≡ true
  pub user_present : flags_of (rt.from_base64url input.authenticator_data) % 2 ≡ 1
  pub public_key : rt.create_public_key cred.public_key_jwk ≡ ok key
  pub signed :
      rt.crypto_verify
        (digest_for rt config repo cred.alg)
        (signed_data rt config repo input)
        key
        (rt.from_base64url input.signature)
      ≡ ok true
  pub counter :
      (cred.sign_count < counter_of (rt.from_base64url input.authenticator_data))
      ⊎ ((cred.sign_count ≡ 0) × (counter_of (rt.from_base64url input.authenticator_data) ≡ 0))

-- A challenge that is found pending is named by the client data, and is taken.
pub pending-some :
    (challenges : Dict ChallengeRecord) (challenge : Option String) {r : ChallengeRecord}
    → pending challenges challenge ≡ some r
    → (c : String) × (challenge ≡ some c)
      × (get c challenges ≡ some r)
      × (consumed challenges challenge ≡ delete c challenges)
unfolding pending consumed
pending-some challenges none h = cc
pending-some challenges (some c) h = elim (Bool-cases (truthy c)) [
  | inl e ↦ (c, refl, rw e at h, ap (λ p. consume p (some c) challenges) h)
  | inr e ↦ absurd (none-not-some (rw e at h))
]

allowed-some :
    (origins : List String) (origin : Option String)
    → is_allowed origins origin ≡ true
    → (o : String) × (origin ≡ some o) × (includes origins o ≡ true)
allowed-some origins none h = cc
allowed-some origins (some o) h = (o, refl, (both-true (truthy o) (includes origins o) h).1)

is_text-some :
    (expected : String) (t : Option String) → is_text expected t ≡ true → t ≡ some expected
is_text-some expected none h = cc
is_text-some expected (some t) h = ap some ((eq_iff t expected).0 h)

module _ {Key S : Type 0} (rt : Runtime Key) (config : PasskeyConfig)
    (repo : PasskeyRepository S) where
  check_challenge-passed :
      (found : Option ChallengeRecord) (now : ℕ) (user : String) (expected : CeremonyType)
      (origin : Option String) (shown : String) {u : Unit {0}}
      → check_challenge rt config found now user expected origin shown ≡ passed u
      → (r : ChallengeRecord) × (found ≡ some r)
        × (r.user_id ≡ user)
        × (r.type ≡ expected)
        × (now ≤ r.expires_at)
        × (is_allowed config.origins origin ≡ true)
  check_challenge-passed found now user expected origin shown h =
      let (r, is_found, h) =
        proceed-passed (require_some found "unknown or replayed challenge") _ h in
      let (_, same, h) =
        proceed-passed
          (require (same_ceremony r.type expected && str_eq r.user_id user)
            "unknown or replayed challenge")
          _ h in
      let (_, late, h) =
        proceed-passed (require (not (ltb r.expires_at now)) "challenge expired") _ h in
      let (of_type, of_user) =
        both-true (same_ceremony r.type expected) (str_eq r.user_id user)
          (require-passed _ _ same) in
      (
        r,
        require_some-passed found _ is_found,
        (eq_iff r.user_id user).0 of_user,
        same_ceremony_eq r.type expected of_type,
        in_time r.expires_at now (require-passed _ _ late),
        require-passed (is_allowed config.origins origin) _ h,
      )

  -- What client data that pass have shown: the challenge is taken.
  check_parsed-passed :
      (challenges : Dict ChallengeRecord) (now : ℕ) (d : ClientData) (user : String)
      (expected : CeremonyType) {u : Unit {0}}
      → (check_parsed rt config challenges now d user expected).1 ≡ passed u
      → (challenge origin shown : String) × (d
          ≡ client_data (some (ceremony_text expected)) (some challenge) (some origin) shown)
        × IsFresh challenges challenge now user expected
        × (includes config.origins origin ≡ true)
        × ((check_parsed rt config challenges now d user expected).0 ≡ delete challenge challenges)
  check_parsed-passed challenges now malformed user expected h = cc
  check_parsed-passed challenges now null_data user expected h = cc
  check_parsed-passed challenges now (client_data type challenge origin shown) user expected h =
      elim (Bool-cases (is_text (ceremony_text expected) type)) [
        | inl e ↦
            let (r, found, of_user, of_type, on_time, allowed) =
              check_challenge-passed (pending challenges challenge) now user expected origin shown
                (rw e at h) in
            let (c, is_c, is_pending, taken) = pending-some challenges challenge found in
            let (o, is_o, included) = allowed-some config.origins origin allowed in
            let is_type = is_text-some (ceremony_text expected) type e in
            (
              c,
              o,
              shown,
              rw is_type (rw is_c (rw is_o refl)),
              record {
                rec = r;
                is_pending = is_pending;
                of_user = of_user;
                of_type = of_type;
                in_time = on_time;
              },
              included,
              rw e taken,
            )
        | inr e ↦ absurd (refused-not-passed (rw e at h))
      ]

  pub client-passed :
      (challenges : Dict ChallengeRecord) (now : ℕ) (json user : String) (expected : CeremonyType)
      {u : Unit {0}}
      → (check_client_data rt config challenges now json user expected).1 ≡ passed u
      → (client : IsClient rt config challenges now json user expected) × ((check_client_data rt
            config challenges now json user expected).0
          ≡ delete client.challenge challenges)
  unfolding check_client_data
  client-passed challenges now json user expected h =
      let (c, o, shown, parsed, fresh, included, taken) =
        check_parsed-passed challenges now (rt.parse (rt.buffer_to_text (rt.from_base64url json)))
          user expected h in
      (
        record {
          challenge = c;
          origin = o;
          shown = shown;
          parsed = parsed;
          fresh = fresh;
          allowed = included;
        },
        taken,
      )

  check_auth_data-passed :
      (auth : List ℕ) {parsed : AuthData}
      → check_auth_data rt config auth false ≡ passed parsed
      → (same_bytes (take 32 auth) (rt.sha256 (rt.utf8 config.rp_id)) ≡ true)
        × (flags_of auth % 2 ≡ 1)
        × (parsed.sign_count ≡ counter_of auth)
  unfolding check_auth_data
  check_auth_data-passed auth h =
      let (_, enough, h) =
        proceed-passed (require (leb 37 (length auth)) "authData too short") _ h in
      let (_, site, h) =
        proceed-passed
          (require (same_bytes (take 32 auth) (rt.sha256 (rt.utf8 config.rp_id))) "rpId mismatch") _
          h in
      let (_, up, h) = proceed-passed (require (flags_of auth % 2 == 1) "user not present") _ h in
      let bit = require-passed _ _ up in
      (
        require-passed _ _ site,
        ground arith,
        ap (λ (p : AuthData). p.sign_count) (sym (passed_inj h)),
      )

  is_valid-true : (o : Thrown Bool) → is_valid rt config repo o ≡ true → o ≡ ok true
  is_valid-true (ok b) h = ap ok h
  is_valid-true (throw e) h = cc

  -- The counter's check passed: the store is as it was, or the counter went up.
  count_up-passed :
      (s : S) (cred : PasskeyRecord) (count : ℕ) {t : S} {u : Unit {0}}
      → count_up rt config repo s cred count ≡ passed (t, u)
      → ((cred.sign_count < count) × (t ≡ repo.update_sign_count s cred.credential_id count))
        ⊎ ((cred.sign_count ≡ 0) × (count ≡ 0) × (t ≡ s))
  count_up-passed s cred count h = elim (Bool-cases (ltb 0 count || ltb 0 cred.sign_count)) [
    | inl e ↦ elim (Bool-cases (leb count cred.sign_count)) [
      | inl l ↦ absurd (refused-not-passed (rw l at (rw e at h)))
      | inr l ↦ inl (ground arith, sym (ap (λ p. p.0) (passed_inj (rw l at (rw e at h)))))
    ]
    | inr e ↦ inr (ground arith, ground arith, sym (ap (λ p. p.0) (passed_inj (rw e at h))))
  ]

  pub settle-passed :
      {A : Type 0} (s : S) (challenges : Dict ChallengeRecord) (o : Outcome (S × A)) {a : A}
      → (settle rt config repo s challenges o).1 ≡ passed a
      → (t : S) × (o ≡ passed (t, a))
        × ((settle rt config repo s challenges o).0 ≡ record { store = t; challenges = challenges })
  settle-passed s challenges (passed (t, a)) h = (t, ap (λ x. passed (t, x)) (passed_inj h), refl)
  settle-passed s challenges (refused r) h = cc
  settle-passed s challenges (failed e) h = cc

  pub assert_known-passed :
      (s : S) (user : String) (input : Assertion) {t : S} {u : Unit {0}}
      → assert_known rt config repo s user input ≡ passed (t, u)
      → (proof : IsSigned rt config repo s user input) × ((t ≡ s)
          ⊎ ((proof.cred.sign_count < counter_of (rt.from_base64url input.authenticator_data))
              × (t
                  ≡ repo.update_sign_count s proof.cred.credential_id
                      (counter_of (rt.from_base64url input.authenticator_data)))))
  assert_known-passed s user input h =
      let auth = rt.from_base64url input.authenticator_data in
      let (cred, found, h) =
        proceed-passed (require_some (repo.get s input.credential_id) "unknown credential") _ h in
      let (_, own, h) =
        proceed-passed (require (owned_by rt config repo user cred) "unknown credential") _ h in
      let (parsed, checked, h) = proceed-passed (check_auth_data rt config auth false) _ h in
      let (key, made, h) =
        proceed-passed (through (rt.create_public_key cred.public_key_jwk)) _ h in
      let (_, valid, h) =
        proceed-passed
          (require
            (is_valid rt config repo (
              rt.crypto_verify (digest_for rt config repo cred.alg)
                (signed_data rt config repo input) key (rt.from_base64url input.signature)))
            "invalid signature")
          _ h in
      let (site, up, same) = check_auth_data-passed auth checked in
      let counted = count_up-passed s cred parsed.sign_count h in
      (
        record {
          cred = cred;
          key = key;
          registered = require_some-passed _ _ found;
          own = (eq_iff cred.user_id user).0 (require-passed _ _ own);
          for_site = site;
          user_present = up;
          public_key = through-passed _ made;
          signed = is_valid-true _ (require-passed _ _ valid);
          counter = elim counted [
            | inl (more, z) ↦ inl (rw same at more)
            | inr (zero, z, y) ↦ inr (zero, sym same ∙ z)
          ];
        },
        elim counted [
          | inl (more, z) ↦
              inr (rw same at more, z ∙ ap (repo.update_sign_count s cred.credential_id) same)
          | inr (zero, z, y) ↦ inl y
        ],
      )

  -- An assertion is accepted only if its client data name the ceremony, an allowed origin and a challenge
  -- that was pending for this user and ceremony and has not expired; if the credential is the user's; if
  -- the authenticator's data are for this site, with the user present; if the stored key signed them; and
  -- if the signature counter went up, or stays at 0. The challenge is no longer pending afterwards.
  pub verify_assertion-accepted :
      (st : State S) (now : ℕ) (user : String) (input : Assertion)
      → (verify_assertion rt config repo st now user input).1 ≡ passed tt
      → (client : IsClient rt config st.challenges now input.client_data_json user webauthn_get)
        × IsSigned rt config repo st.store user input
        × ((verify_assertion rt config repo st now user input).0.challenges
            ≡ delete client.challenge st.challenges)
  unfolding verify_assertion
  verify_assertion-accepted st now user input h =
      let checked =
        check_client_data rt config st.challenges now input.client_data_json user webauthn_get in
      let (t, done, after) = settle-passed st.store checked.0 _ h in
      let (_, client_ok, known) = proceed-passed checked.1 _ done in
      let (client, taken) =
        client-passed st.challenges now input.client_data_json user webauthn_get client_ok in
      let (signed, z) = assert_known-passed st.store user input known in
      (client, signed, ap (λ (x : State S). x.challenges) after ∙ taken)
