-- ===== src/Server/Accounts/Login.antt =====
-- Who can log in after a registration, and after a change of the verifier.
use vault_keep.Base.{
  Option, none, some, Bool, true, false, not, if◌then◌else◌, List, [], ◌∷◌, ◌++◌, String, ◌≡◌, ◌∙◌,
  ap, sym, refl, str_eq, eq_iff, is_some, bind-ok, guard-ok, ok_inj, Thrown, ok, ◌>>=◌, Bool-cases,
  inl, inr,
}
use vault_keep.Server.Accounts.{
  Runtime, AccountRecord, RegisterInput, is_email, weak, update_row, with_hash, find_by_email,
  find_by_id, create, update_auth_hash, new_record, register, reset_verifier, check_found,
  verify_login,
}
use vault_keep.Server.Accounts.Rows.{Distinct, rehash, find_email-push, find_email-update}

-- Argon2 accepts the verifier that was hashed, and no other: its collisions are left out.
abbrev pub IsArgon2 : Runtime → Type 0
IsArgon2 rt =
    (secret salt hash guess : String)
    → rt.hash_verifier secret salt ≡ ok hash
    → rt.argon2_verify guess hash ≡ str_eq guess secret

not-is_some : (o : Option AccountRecord) → is_some o ≡ false → o ≡ none
not-is_some none h = refl
not-is_some (some a) h = cc

not-false : (b : Bool) → not b ≡ false → b ≡ true
not-false true h = refl
not-false false h = cc

module _ (rt : Runtime) where
  create-ok :
      (s s' : List AccountRecord) (rec : AccountRecord)
      → create rt s rec ≡ ok s'
      → (find_by_email rt s rec.email ≡ none) × (s' ≡ s ++ rec ∷ [])
  unfolding create
  create-ok s s' rec h =
      let (free, pushed) =
        guard-ok (is_some (find_by_email rt s rec.email)) _ (ok (s ++ rec ∷ [])) h in
      (not-is_some (find_by_email rt s rec.email) free, sym (ok_inj pushed))

  abbrev with_id : String → List AccountRecord → Thrown (String × List AccountRecord)
  with_id id created = ok (id, created)

  abbrev made :
      List AccountRecord
      → RegisterInput
      → String
      → String
      → String
      → Thrown (String × List AccountRecord)
  made s input id now hash = create rt s (new_record rt input id hash now) >>= with_id id

  -- What a registration that succeeds has done.
  register-ok :
      (s s' : List AccountRecord) (input : RegisterInput) (id i salt now : String)
      → register rt s input id salt now ≡ ok (i, s')
      → (hash : String) × (i ≡ id)
        × (is_email input.email ≡ true)
        × (weak input.auth_verifier ≡ false)
        × (rt.hash_verifier input.auth_verifier salt ≡ ok hash)
        × (find_by_email rt s input.email ≡ none)
        × (s' ≡ s ++ new_record rt input id hash now ∷ [])
  unfolding register
  register-ok s s' input id i salt now h =
      let (email, rest) = guard-ok (not (is_email input.email)) _ _ h in
      let (strong, rest2) = guard-ok (weak input.auth_verifier) _ _ rest in
      let (hash, hashed, more) =
        bind-ok (rt.hash_verifier input.auth_verifier salt) (made s input id now) rest2 in
      let (created, pushed, returned) =
        bind-ok (create rt s (new_record rt input id hash now)) (with_id id) more in
      let (free, same) = create-ok s created (new_record rt input id hash now) pushed in
      (
        hash,
        sym (ap (λ p. p.0) (ok_inj returned)),
        not-false _ email,
        strong,
        hashed,
        free,
        sym (ap (λ p. p.1) (ok_inj returned)) ∙ same,
      )

  check_new :
      (argon2 : IsArgon2 rt) (a : AccountRecord) (secret salt guess : String)
      → rt.hash_verifier secret salt ≡ ok a.auth_hash
      → check_found rt (some a) guess ≡ (if str_eq guess secret then some a.id else none)
  check_new argon2 a secret salt guess h = rw (argon2 secret salt a.auth_hash guess h) refl

  -- After a registration that succeeds, where Argon2 has no collisions, the email it named (in any case) logs in with the registered verifier and
  -- no other, as the new account; every other email logs in as before.
  pub register-verify_login :
      IsArgon2 rt
      → (s s' : List AccountRecord) (input : RegisterInput) (id i salt now : String)
      → register rt s input id salt now ≡ ok (i, s')
      → (email guess : String)
      → verify_login rt s' email guess ≡ (
          if str_eq (rt.to_lower input.email) (rt.to_lower email)
          then if str_eq guess input.auth_verifier then some i else none
          else verify_login rt s email guess)
  unfolding verify_login
  register-verify_login argon2 s s' input id i salt now h email guess =
      let (hash, same_id, _, _, hashed, free, pushed) = register-ok s s' input id i salt now h in
      let rec = new_record rt input id hash now in
      ap (λ (t : List AccountRecord). check_found rt (find_by_email rt t email) guess) pushed
      ∙ ap (λ (o : Option AccountRecord). check_found rt o guess)
          (find_email-push rt s rec email free)
      ∙ elim (Bool-cases (str_eq (rt.to_lower input.email) (rt.to_lower email))) [
        | inl e ↦ rw e (
            check_new argon2 rec input.auth_verifier salt guess hashed
            ∙ ap (λ (u : String). if str_eq guess input.auth_verifier then some u else none)
                (sym same_id))
        | inr e ↦ rw e refl
      ]

  -- Whether the account that is found is the user's.
  abbrev pub is_of : String → Option AccountRecord → Bool
  is_of user none = false
  is_of user (some a) = str_eq a.id user

  reset-ok :
      (s s' : List AccountRecord) (user verifier salt : String)
      → reset_verifier rt s user verifier salt ≡ ok s'
      → (hash : String) × (rt.hash_verifier verifier salt ≡ ok hash) × (s' ≡ update_row user hash s)
  unfolding reset_verifier update_auth_hash
  reset-ok s s' user verifier salt h =
      let (strong, rest) = guard-ok (weak verifier) _ _ h in
      let (hash, hashed, updated) =
        bind-ok (rt.hash_verifier verifier salt) (update_auth_hash rt s user) rest in
      let (found, done) =
        guard-ok (not (is_some (find_by_id rt s user))) _ (ok (update_row user hash s)) updated in
      (hash, hashed, sym (ok_inj done))

  rehashed :
      (argon2 : IsArgon2 rt) (o : Option AccountRecord) (user hash verifier salt guess : String)
      → rt.hash_verifier verifier salt ≡ ok hash
      → check_found rt (rehash user hash o) guess ≡ (
          if is_of user o
          then if str_eq guess verifier then some user else none
          else check_found rt o guess)
  rehashed argon2 none user hash verifier salt guess h = refl
  rehashed argon2 (some a) user hash verifier salt guess h = elim (Bool-cases (str_eq a.id user)) [
    | inl e ↦ rw e (
        check_new argon2 (with_hash hash a) verifier salt guess h
        ∙ ap (λ (u : String). if str_eq guess verifier then some u else none)
            ((eq_iff a.id user).0 e))
    | inr e ↦ rw e refl
  ]

  -- After the verifier of a user is reset, where ids are distinct and Argon2 has no collisions, the user's email logs in with the new verifier and no
  -- other; every other email logs in as before.
  pub reset_verifier-verify_login :
      IsArgon2 rt
      → (s s' : List AccountRecord) (user verifier salt : String) → Distinct s
      → reset_verifier rt s user verifier salt ≡ ok s'
      → (email guess : String)
      → verify_login rt s' email guess ≡ (
          if is_of user (find_by_email rt s email)
          then if str_eq guess verifier then some user else none
          else verify_login rt s email guess)
  unfolding verify_login
  reset_verifier-verify_login argon2 s s' user verifier salt distinct h email guess =
      let (hash, hashed, updated) = reset-ok s s' user verifier salt h in
      ap (λ (t : List AccountRecord). check_found rt (find_by_email rt t email) guess) updated
      ∙ ap (λ (o : Option AccountRecord). check_found rt o guess)
          (find_email-update rt s user hash email distinct)
      ∙ rehashed argon2 (find_by_email rt s email) user hash verifier salt guess hashed
