-- ===== src/Server/Passkeys/Once.antt =====
-- The pending challenges, through any calls of the service.
use vault_keep.Base.{
  ℕ, Option, none, some, if◌then◌else◌, List, [], ◌∷◌, ◌≡◌, ◌≢◌, inl, inr, ◌∙◌, ap, sym, refl,
  arith, String, eq_iff, All, Bool-cases,
}
use vault_keep.Base.Dict.{Dict, get, put, get-delete, get-put}
use vault_keep.Server.Passkeys.{
  PasskeyRepository, CeremonyType, ceremony_text, webauthn_create, webauthn_get, ChallengeRecord,
  PasskeyConfig, ClientData, malformed, null_data, client_data, Runtime, Outcome, passed, refused,
  failed, State, Assertion, pending, consume, consumed, is_text,
}
use vault_keep.Server.Passkeys.Service.{
  check_client_data, check_parsed, settle, verify_assertion, verify_registration, mint_challenge,
  registration_options, assertion_options, Call, create_options, request_options, registering,
  asserting, serve, serve_all,
}
use vault_keep.Server.Passkeys.Ceremony.{verify_assertion-accepted}

-- The client data name this challenge.
abbrev pub Names : {Key : Type 0} → Runtime Key → String → String → Type 0
Names rt json c =
    (type origin : Option String) × (shown : String) × (rt.parse
        (rt.buffer_to_text (rt.from_base64url json))
      ≡ client_data type (some c) origin shown)

-- The call does not make this challenge.
abbrev pub IsNotMinted : {Key : Type 0} → Runtime Key → String → Call → Type 0
IsNotMinted rt c (create_options now random user email) = rt.to_base64url random ≢ c
IsNotMinted rt c (request_options now random user) = rt.to_base64url random ≢ c
IsNotMinted rt c (registering now created_at user input) = Unit
IsNotMinted rt c (asserting now user input) = Unit

get-consume :
    (c : String) (found : Option ChallengeRecord) (challenge : Option String)
    (m : Dict ChallengeRecord)
    → get c m ≡ none
    → get c (consume found challenge m) ≡ none
get-consume c (some r) (some d) m h = ground (arith, get-delete d c m)
get-consume c (some r) none m h = h
get-consume c none challenge m h = h

get-put_other :
    (c d : String) (r : ChallengeRecord) (m : Dict ChallengeRecord)
    → d ≢ c
    → get c m ≡ none
    → get c (put d r m) ≡ none
get-put_other c d r m other h = ground (arith, get-put d c r m, eq_iff d c)

client_data_challenge :
    {t u o p : Option String} {c d : String} {x y : String}
    → client_data t (some c) o x ≡ client_data u (some d) p y
    → c ≡ d
client_data_challenge h = cc

none-not-some : {A : Type 0} {a : A} → none ≡ some a → ⊥
none-not-some h = cc

module _ {Key S : Type 0} (rt : Runtime Key) (config : PasskeyConfig)
    (repo : PasskeyRepository S) where
  check_parsed-none :
      (c : String) (m : Dict ChallengeRecord) (now : ℕ) (d : ClientData) (user : String)
      (expected : CeremonyType)
      → get c m ≡ none
      → get c (check_parsed rt config m now d user expected).0 ≡ none
  unfolding consumed
  check_parsed-none c m now malformed user expected h = h
  check_parsed-none c m now null_data user expected h = h
  check_parsed-none c m now (client_data type challenge origin shown) user expected h =
      elim (Bool-cases (is_text (ceremony_text expected) type)) [
        | inl e ↦ rw e (get-consume c (pending m challenge) challenge m h)
        | inr e ↦ rw e h
      ]

  settle-challenges :
      {A : Type 0} (s : S) (m : Dict ChallengeRecord) (o : Outcome (S × A))
      → (settle rt config repo s m o).0.challenges ≡ m
  settle-challenges s m (passed (t, a)) = refl
  settle-challenges s m (refused r) = refl
  settle-challenges s m (failed e) = refl

  serve-none :
      (c : String) (st : State S) (call : Call)
      → IsNotMinted rt c call
      → get c st.challenges ≡ none
      → get c (serve rt config repo st call).challenges ≡ none
  unfolding serve verify_assertion verify_registration check_client_data registration_options
      assertion_options mint_challenge
  serve-none c st (create_options now random user email) new h =
      get-put_other c (rt.to_base64url random) _ st.challenges new h
  serve-none c st (request_options now random user) new h =
      get-put_other c (rt.to_base64url random) _ st.challenges new h
  serve-none c st (registering now created_at user input) new h =
      ap (get c) (settle-challenges st.store _ _)
      ∙ check_parsed-none c st.challenges now
          (rt.parse (rt.buffer_to_text (rt.from_base64url input.client_data_json))) user
          webauthn_create h
  serve-none c st (asserting now user input) new h =
      ap (get c) (settle-challenges st.store _ _)
      ∙ check_parsed-none c st.challenges now
          (rt.parse (rt.buffer_to_text (rt.from_base64url input.client_data_json))) user
          webauthn_get h

  serve_all-none :
      (c : String) (st : State S) (calls : List Call)
      → All (IsNotMinted rt c) calls
      → get c st.challenges ≡ none
      → get c (serve_all rt config repo st calls).challenges ≡ none
  unfolding serve_all
  serve_all-none c st [] new h = h
  serve_all-none c st (call ∷ calls) (new, later) h =
      serve_all-none c (serve rt config repo st call) calls later (serve-none c st call new h)

  -- Once an assertion is accepted, its challenge is spent: whatever is called afterwards, as long as the
  -- same challenge is not made again, no assertion that names it is accepted, from any user at any time.
  pub verify_assertion-once :
      (st : State S) (now : ℕ) (user : String) (input : Assertion) (c : String)
      → Names rt input.client_data_json c
      → (verify_assertion rt config repo st now user input).1 ≡ passed tt
      → (calls : List Call) → All (IsNotMinted rt c) calls
      → (later : ℕ) (other : String) (replay : Assertion) → Names rt replay.client_data_json c
      → (verify_assertion rt config repo
          (serve_all rt config repo (verify_assertion rt config repo st now user input).0 calls)
          later
          other
          replay).1
        ≢ passed tt
  verify_assertion-once st now user input c (type, origin, shown, names) accepted calls new later
        other replay (type', origin', shown', names') again =
      let (client, signed, taken) =
        verify_assertion-accepted rt config repo st now user input accepted in
      let same = client_data_challenge (sym names ∙ client.parsed) in
      let gone : get c (verify_assertion rt config repo st now user input).0.challenges ≡ none =
        ap (get c) taken
        ∙ get-delete client.challenge c st.challenges
        ∙ ap (λ b. if b then none else get c st.challenges)
            ((eq_iff client.challenge c).1 (sym same)) in
      let (client', signed', taken') =
        verify_assertion-accepted rt config repo _ later other replay again in
      let same' = client_data_challenge (sym names' ∙ client'.parsed) in
      none-not-some (
        sym (serve_all-none c _ calls new gone)
        ∙ ap
            (λ d.
              get d
                (serve_all rt config repo (verify_assertion rt config repo st now user input).0
                  calls).challenges)
            same'
        ∙ client'.fresh.is_pending)
