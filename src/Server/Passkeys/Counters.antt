-- ===== src/Server/Passkeys/Counters.antt =====
-- The rows of credentials, through any calls of the service.
use vault_keep.Base.{
  ℕ, ◌≤◌, ◌<◌, Option, none, some, Bool, true, false, if◌then◌else◌, List, [], ◌∷◌, ◌≡◌, inl, inr,
  ◌∙◌, ap, subst, sym, refl, arith, String, str_eq, eq_iff,
}
use vault_keep.Base.Dict.{Dict, delete}
use vault_keep.Server.Cbor.{get_entry, text_key, decode_cbor}
use vault_keep.Server.Passkeys.{
  PasskeyRecord, PasskeyRepository, webauthn_create, webauthn_get, ChallengeRecord, PasskeyConfig,
  Runtime, Outcome, passed, refused, failed, proceed, require, require_some, caught, State,
  Registration, thrown_of, map_of, bytes_of,
}
use vault_keep.Server.Passkeys.Service.{
  check_client_data, settle, verify_assertion, verify_registration, register_new, assert_known,
  mint_challenge, is_new, new_passkey, cose_to_jwk, check_auth_data, registration_options,
  assertion_options, Call, create_options, request_options, registering, asserting, serve,
  serve_all,
}
use vault_keep.Server.Passkeys.Stores.{IsRepository, count_to}
use vault_keep.Server.Passkeys.Ceremony.{
  IsClient, proceed-passed, passed_inj, require-passed, assert_known-passed, settle-passed,
  client-passed,
}

-- The second keeps the key of the first, and its counter is no less.
abbrev pub Keeps : Option PasskeyRecord → Option PasskeyRecord → Type 0
Keeps none found = Unit
Keeps (some r) none = ⊥
Keeps (some r) (some t) =
    (r.sign_count ≤ t.sign_count) × (t.user_id ≡ r.user_id) × (t.public_key_jwk ≡ r.public_key_jwk)

-- Rows are found under their own id.
abbrev pub IsKeyed : {S : Type 0} → PasskeyRepository S → S → Type 0
IsKeyed repo s = (id : String) (r : PasskeyRecord) → repo.get s id ≡ some r → r.credential_id ≡ id

-- The rows after a step: found under their own id, and kept.
abbrev pub Advances : {S : Type 0} → PasskeyRepository S → S → S → Type 0
Advances repo s t = IsKeyed repo t × ((id : String) → Keeps (repo.get s id) (repo.get t id))

Keeps-refl : (found : Option PasskeyRecord) → Keeps found found
Keeps-refl none = tt
Keeps-refl (some r) = (omega arith, refl, refl)

Keeps-trans : (a b c : Option PasskeyRecord) → Keeps a b → Keeps b c → Keeps a c
Keeps-trans none b c h k = tt
Keeps-trans (some r) none c h k = absurd h
Keeps-trans (some r) (some t) none h k = absurd k
Keeps-trans (some r) (some t) (some u) (h, own, key) (k, own', key') =
    (omega arith, own' ∙ own, key' ∙ key)

some_inj : {A : Type 0} {a b : A} → some a ≡ some b → a ≡ b
some_inj h = cc

Keeps-new :
    (b : Bool) (rec : PasskeyRecord) (old : Option PasskeyRecord)
    → (b ≡ true → old ≡ none)
    → Keeps old (if b then some rec else old)
Keeps-new true rec old h = rw (h refl) tt
Keeps-new false rec old h = Keeps-refl old

Keeps-count :
    (b : Bool) (n : ℕ) (old : Option PasskeyRecord)
    → ((r : PasskeyRecord) → b ≡ true → old ≡ some r → r.sign_count ≤ n)
    → Keeps old (if b then count_to n old else old)
Keeps-count b n none h = tt
Keeps-count true n (some r) h = (h r refl refl, refl, refl)
Keeps-count false n (some r) h = Keeps-refl (some r)

-- What is found has this id.
abbrev HasId : String → Option PasskeyRecord → Type 0
HasId id found = (r : PasskeyRecord) → found ≡ some r → r.credential_id ≡ id

HasId-new :
    (id : String) (b : Bool) (rec : PasskeyRecord) (old : Option PasskeyRecord)
    → (b ≡ true → rec.credential_id ≡ id)
    → HasId id old
    → HasId id (if b then some rec else old)
HasId-new id true rec old h k r found =
    ap (λ (c : PasskeyRecord). c.credential_id) (sym (some_inj found)) ∙ h refl
HasId-new id false rec old h k r found = k r found

HasId-count :
    (id : String) (b : Bool) (n : ℕ) (old : Option PasskeyRecord)
    → HasId id old
    → HasId id (if b then count_to n old else old)
HasId-count id true n none k r found = cc
HasId-count id true n (some c) k r found =
    ap (λ (x : PasskeyRecord). x.credential_id) (sym (some_inj found)) ∙ k c refl
HasId-count id false n old k r found = k r found

module _ {S : Type 0} (repo : PasskeyRepository S) (laws : IsRepository repo) where
  Advances-create :
      (s : S) (rec : PasskeyRecord)
      → IsKeyed repo s
      → repo.get s rec.credential_id ≡ none
      → Advances repo s (repo.create s rec)
  Advances-create s rec keyed fresh = (
    λ id r found.
        HasId-new id (str_eq rec.credential_id id) rec (repo.get s id)
          ((eq_iff rec.credential_id id).0) (keyed id) r
          (sym (laws.get-create s rec id fresh) ∙ found),
    λ id. subst (Keeps (repo.get s id)) (sym (laws.get-create s rec id fresh)) (
        Keeps-new (str_eq rec.credential_id id) rec (repo.get s id)
          (λ e. ap (repo.get s) (sym ((eq_iff rec.credential_id id).0 e)) ∙ fresh)),
  )

  Advances-update :
      (s : S) (id : String) (n : ℕ) {c : PasskeyRecord}
      → IsKeyed repo s
      → repo.get s id ≡ some c
      → c.sign_count < n
      → Advances repo s (repo.update_sign_count s id n)
  Advances-update s id n {c} keyed found less = (
    λ j r got.
        HasId-count j (str_eq id j) n (repo.get s j) (keyed j) r
          (sym (laws.get-update_sign_count s id n j) ∙ got),
    λ j. subst (Keeps (repo.get s j)) (sym (laws.get-update_sign_count s id n j)) (
        Keeps-count (str_eq id j) n (repo.get s j) (λ r e old.
          let same = some_inj (sym found ∙ ap (repo.get s) ((eq_iff id j).0 e) ∙ old) in
          let counts = ap (λ (x : PasskeyRecord). x.sign_count) same in omega arith)),
  )

  module _ {Key : Type 0} (rt : Runtime Key) (config : PasskeyConfig) where
    is_new-none : (found : Option PasskeyRecord) → is_new rt config repo found ≡ true → found ≡ none
    is_new-none none h = refl
    is_new-none (some r) h = cc

    -- A registration that passes puts a row under an id that had none.
    register_new-passed :
        (s : S) (user : String) (input : Registration) (created_at : String) {t : S} {id : String}
        → register_new rt config repo s user input created_at ≡ passed (t, id)
        → (rec : PasskeyRecord) × (repo.get s rec.credential_id ≡ none)
          × (t ≡ repo.create s rec)
          × (rec.credential_id ≡ id)
          × (rec.user_id ≡ user)
    register_new-passed s user input created_at h =
        let (att, _, h) =
          proceed-passed
            (caught
              (thrown_of (decode_cbor rt.from_utf8 (rt.from_base64url input.attestation_object))) _)
            _ h in
        let (entries, _, h) =
          proceed-passed (require_some (map_of (some att)) "malformed attestation object") _ h in
        let (auth, _, h) =
          proceed-passed
            (require_some (bytes_of (get_entry (text_key "authData") entries)) "missing authData") _
            h in
        let (parsed, _, h) = proceed-passed (check_auth_data rt config auth true) _ h in
        let ((new_id, cose_key), _, h) =
          proceed-passed (require_some parsed.credential "no attested credential data") _ h in
        let (_, fresh, h) =
          proceed-passed
            (require (is_new rt config repo (repo.get s new_id)) "credential already registered") _
            h in
        let ((jwk, alg), _, h) = proceed-passed (caught (cose_to_jwk rt cose_key) _) _ h in
        (
          new_passkey rt config repo user input new_id (rt.stringify jwk) alg parsed.sign_count
              created_at,
          is_new-none (repo.get s new_id) (require-passed _ _ fresh),
          ap (λ p. p.0) (sym (passed_inj h)),
          ap (λ p. p.1) (passed_inj h),
          refl,
        )

    settle-Advances :
        {A : Type 0} (s : S) (m : Dict ChallengeRecord) (o : Outcome (S × A))
        → IsKeyed repo s
        → ((t : S) (a : A) → o ≡ passed (t, a) → Advances repo s t)
        → Advances repo s (settle rt config repo s m o).0.store
    settle-Advances s m (passed (t, a)) keyed h = h t a refl
    settle-Advances s m (refused r) keyed h = (keyed, λ id. Keeps-refl (repo.get s id))
    settle-Advances s m (failed e) keyed h = (keyed, λ id. Keeps-refl (repo.get s id))

    serve-Advances :
        (st : State S) (call : Call)
        → IsKeyed repo st.store
        → Advances repo st.store (serve rt config repo st call).store
    unfolding serve verify_assertion verify_registration registration_options assertion_options
        mint_challenge
    serve-Advances st (create_options now random user email) keyed =
        (keyed, λ id. Keeps-refl (repo.get st.store id))
    serve-Advances st (request_options now random user) keyed =
        (keyed, λ id. Keeps-refl (repo.get st.store id))
    serve-Advances st (registering now created_at user input) keyed =
        let client =
          check_client_data rt config st.challenges now input.client_data_json user
            webauthn_create in
        let register =
          λ (u : Unit {0}). register_new rt config repo st.store user input created_at in
        settle-Advances st.store client.0 (proceed client.1 register) keyed λ t a done.
          let (_, _, h) = proceed-passed client.1 register done in
          let (rec, fresh, same, _, _) = register_new-passed st.store user input created_at h in
          subst (Advances repo st.store) (sym same) (Advances-create st.store rec keyed fresh)
    serve-Advances st (asserting now user input) keyed =
        let client =
          check_client_data rt config st.challenges now input.client_data_json user webauthn_get in
        let known = λ (u : Unit {0}). assert_known rt config repo st.store user input in
        settle-Advances st.store client.0 (proceed client.1 known) keyed λ t a done.
          let (_, _, h) = proceed-passed client.1 known done in
          let (proof, after) = assert_known-passed rt config repo st.store user input h in
          elim after [
            | inl same ↦
                subst (Advances repo st.store) (sym same)
                  (keyed, λ id. Keeps-refl (repo.get st.store id))
            | inr (less, same) ↦ subst (Advances repo st.store) (sym same) (
                Advances-update st.store proof.cred.credential_id _ keyed
                  (ap (repo.get st.store) (keyed input.credential_id proof.cred proof.registered)
                    ∙ proof.registered)
                  less)
          ]

    -- Over a store that keeps the laws of a repository and whose rows are found under their own id: through any calls, a registered
    -- credential stays its user's, with its key, and its signature counter never goes down.
    pub serve_all-Keeps :
        (st : State S) (calls : List Call)
        → IsKeyed repo st.store
        → (id : String)
        → Keeps (repo.get st.store id) (repo.get (serve_all rt config repo st calls).store id)
    unfolding serve_all
    serve_all-Keeps st [] keyed id = Keeps-refl (repo.get st.store id)
    serve_all-Keeps st (call ∷ calls) keyed id =
        let (next, keeps) = serve-Advances st call keyed in
        Keeps-trans (repo.get st.store id) _ _ (keeps id)
          (serve_all-Keeps (serve rt config repo st call) calls next id)

    -- Over a store that keeps the laws of a repository: a registration is accepted only if its client data name the creation of a key, an allowed origin and a
    -- challenge that was pending for this user and has not expired. No row had its id before; afterwards one
    -- of this user does, and the challenge is no longer pending.
    pub verify_registration-accepted :
        (st : State S) (now : ℕ) (created_at user : String) (input : Registration) (id : String)
        → (verify_registration rt config repo st now created_at user input).1 ≡ passed id
        → (client : IsClient rt config st.challenges now input.client_data_json user
            webauthn_create)
          × (repo.get st.store id ≡ none)
          × ((rec : PasskeyRecord) × (repo.get
                  (verify_registration rt config repo st now created_at user input).0.store
                  id
                ≡ some rec)
              × (rec.user_id ≡ user))
          × ((verify_registration rt config repo st now created_at user input).0.challenges
              ≡ delete client.challenge st.challenges)
    unfolding verify_registration
    verify_registration-accepted st now created_at user input id h =
        let checked =
          check_client_data rt config st.challenges now input.client_data_json user
            webauthn_create in
        let (t, done, after) = settle-passed rt config repo st.store checked.0 _ h in
        let (_, client_ok, known) = proceed-passed checked.1 _ done in
        let (client, taken) =
          client-passed rt config repo st.challenges now input.client_data_json user webauthn_create
            client_ok in
        let (rec, fresh, made, same, own) =
          register_new-passed st.store user input created_at known in
        (
          client,
          ap (repo.get st.store) (sym same) ∙ fresh,
          (
            rec,
            ap (λ (x : State S). repo.get x.store id) after
                ∙ ap (λ x. repo.get x id) made
                ∙ laws.get-create st.store rec id fresh
                ∙ ap (λ b. if b then some rec else repo.get st.store id)
                    ((eq_iff rec.credential_id id).1 same),
            own,
          ),
          ap (λ (x : State S). x.challenges) after ∙ taken,
        )
