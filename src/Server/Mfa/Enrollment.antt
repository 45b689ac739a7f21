-- ===== src/Server/Mfa/Enrollment.antt =====
-- Enrollment in two phases: a secret gates a login only after a code of it was shown.
use mathlib.Core.List.{Memᴰ}
use vault_keep.Base.{
  ℕ, ◌≤◌, Option, none, some, Bool, true, false, if◌then◌else◌, List, [], ◌∷◌, String, Thrown, ok,
  throw, ◌≡◌, ◌∙◌, ap, sym, subst, refl, inl, inr, arith, str_eq, eq_iff, eq_refl, Bool-cases,
  or_else,
}
use vault_keep.Server.Mfa.{
  Runtime, MfaRecord, MfaRepository, start, confirm, confirm_found, confirmed_with, verify,
  verify_found, verify_totp, Event, starting, confirming, serve, serve_all, generate_secret,
  current_code, counter_at,
}
use vault_keep.Server.Mfa.Stores.{IsRepository}
use vault_keep.Server.Mfa.Codes.{verify_totp_lem}

none-ne-some : {A : Type 0} {a : A} → none ≡ some a → ⊥
none-ne-some e = cc

false-ne-true : ok false ≡ ok true → ⊥
false-ne-true e = cc

module _ {S : Type 0} (repo : MfaRepository S) (rt : Runtime) (is : IsRepository repo) where
  -- Some event of the list confirms the secret for the user with a code that verifies.
  abbrev pub WasShown : List Event → String → String → Type 0
  WasShown es user secret =
      (token : String) × (now : ℕ) × Memᴰ (confirming user token now) es
      × (verify_totp rt secret token now ≡ ok true)

  -- The record is the user's, and if it is confirmed then its secret was shown.
  abbrev pub Shown : List Event → String → MfaRecord → Type 0
  Shown es user rec = (rec.user_id ≡ user) × (rec.confirmed ≡ true → WasShown es user rec.secret)

  abbrev pub AllShown : List Event → S → Type 0
  AllShown es s = (user : String) (rec : MfaRecord) → repo.get s user ≡ some rec → Shown es user rec

  upserted :
      (es : List Event) (s : S) (new rec : MfaRecord) (user : String)
      → AllShown es s
      → Shown es new.user_id new
      → (if str_eq new.user_id user then some new else repo.get s user) ≡ some rec
      → Shown es user rec
  upserted es s new rec user h (_, hn) found = elim (Bool-cases (str_eq new.user_id user)) [
    | inl e ↦
        let mine = (eq_iff new.user_id user).0 e in
        subst (Shown es user) (ap (or_else new) (rw e at found))
          ((mine, subst (λ u. new.confirmed ≡ true → WasShown es u new.secret) mine hn))
    | inr e ↦ h user rec (rw e at found)
  ]

  upsert-AllShown :
      (es : List Event) (s : S) (new : MfaRecord)
      → AllShown es s
      → Shown es new.user_id new
      → AllShown es (repo.upsert s new)
  upsert-AllShown es s new h hn user rec found =
      upserted es s new rec user h hn (sym (is.get-upsert s new user) ∙ found)

  confirmed_with-AllShown :
      (es : List Event) (s : S) (rec : MfaRecord) (token : String) (now : ℕ) (r : Thrown Bool)
      → verify_totp rt rec.secret token now ≡ r
      → Memᴰ (confirming rec.user_id token now) es
      → AllShown es s
      → AllShown es (confirmed_with repo rt s rec r).1
  confirmed_with-AllShown es s rec token now (throw e) hr he h = h
  confirmed_with-AllShown es s rec token now (ok false) hr he h = h
  confirmed_with-AllShown es s rec token now (ok true) hr he h =
      upsert-AllShown es s _ h (refl, λ _. (token, now, he, hr))

  confirm_found-AllShown :
      (es : List Event) (s : S) (user token : String) (now : ℕ) (o : Option MfaRecord)
      → repo.get s user ≡ o
      → Memᴰ (confirming user token now) es
      → AllShown es s
      → AllShown es (confirm_found repo rt s o token now).1
  confirm_found-AllShown es s user token now none ho he h = h
  confirm_found-AllShown es s user token now (some rec) ho he h =
      confirmed_with-AllShown es s rec token now (verify_totp rt rec.secret token now) refl
        (subst (λ u. Memᴰ (confirming u token now) es) (sym (h user rec ho).0) he) h

  serve-AllShown :
      (es : List Event) (s : S) (e : Event)
      → Memᴰ e es
      → AllShown es s
      → AllShown es (serve repo rt s e)
  unfolding serve start confirm
  serve-AllShown es s (starting user random) he h = upsert-AllShown es s _ h (refl, λ no. cc)
  serve-AllShown es s (confirming user token now) he h =
      confirm_found-AllShown es s user token now (repo.get s user) refl he h

  serve_all-AllShown :
      (all es : List Event) (s : S)
      → ((e : Event) → Memᴰ e es → Memᴰ e all)
      → AllShown all s
      → AllShown all (serve_all repo rt s es)
  unfolding serve_all
  serve_all-AllShown all [] s hall h = h
  serve_all-AllShown all (e ∷ es) s hall h =
      serve_all-AllShown all es (serve repo rt s e) (λ x hx. hall x (Memᴰ.tail hx))
        (serve-AllShown all s e (hall e (Memᴰ.head refl)) h)

  verify_found-true :
      (o : Option MfaRecord) (token : String) (now : ℕ)
      → verify_found repo rt o token now ≡ ok true
      → (rec : MfaRecord) × (o ≡ some rec)
        × (rec.confirmed ≡ true)
        × (verify_totp rt rec.secret token now ≡ ok true)
  verify_found-true none token now h = cc
  verify_found-true (some rec) token now h = elim (Bool-cases rec.confirmed) [
    | inl e ↦ (rec, refl, e, rw e at h)
    | inr e ↦ absurd (false-ne-true (rw e at h))
  ]

  -- A login's code passes, after any requests on a store without records, only if some request of the
  -- user's confirmed a secret with a code of it, and the login's code is one of the same secret.
  pub serve_all-verify :
      (s : S) (es : List Event) (user token : String) (now : ℕ)
      → ((u : String) → repo.get s u ≡ none)
      → verify repo rt (serve_all repo rt s es) user token now ≡ ok true
      → (secret : String) × WasShown es user secret × (verify_totp rt secret token now ≡ ok true)
  unfolding verify
  serve_all-verify s es user token now empty h =
      let (rec, found, confirmed, passes) = verify_found-true _ token now h in
      let (_, shown) =
        serve_all-AllShown es es s (λ e he. he)
          (λ u r hr. absurd (none-ne-some (sym (empty u) ∙ hr))) user rec found in
      (rec.secret, shown confirmed, passes)

  upsert-get : (s : S) (rec : MfaRecord) → repo.get (repo.upsert s rec) rec.user_id ≡ some rec
  upsert-get s rec = is.get-upsert s rec rec.user_id ∙ rw (eq_refl rec.user_id) refl

  current_code-verifies :
      (secret : String) (now : ℕ)
      → 30000 ≤ now
      → verify_totp rt secret (current_code rt secret now) now ≡ ok true
  unfolding current_code
  current_code-verifies secret now h =
      (verify_totp_lem rt secret _ now h).1 (counter_at now, omega arith, omega arith, refl)

  confirm-upserts :
      (s : S) (rec : MfaRecord) (token : String) (now : ℕ)
      → repo.get s rec.user_id ≡ some rec
      → verify_totp rt rec.secret token now ≡ ok true
      → (confirm repo rt s rec.user_id token now).1
        ≡ repo.upsert s (record { user_id = rec.user_id; secret = rec.secret; confirmed = true })
  unfolding confirm
  confirm-upserts s rec token now found passes =
      ap (λ (o : Option MfaRecord). (confirm_found repo rt s o token now).1) found
      ∙ ap (λ (r : Thrown Bool). (confirmed_with repo rt s rec r).1) passes

  verify-confirmed :
      (s : S) (user secret token : String) (now : ℕ)
      → repo.get s user ≡ some (record { user_id = user; secret = secret; confirmed = true })
      → verify repo rt s user token now ≡ verify_totp rt secret token now
  unfolding verify
  verify-confirmed s user secret token now found =
      ap (λ (o : Option MfaRecord). verify_found repo rt o token now) found

  -- An enrollment that is confirmed with the code of its time succeeds: the code of any time then
  -- passes at that time, after the first step of 1970.
  pub start-confirm-verify :
      (s : S) (user : String) (random : List ℕ) (now later : ℕ)
      → 30000 ≤ now
      → 30000 ≤ later
      → verify repo rt
          (serve_all repo rt s (
            starting user random
            ∷ confirming user (current_code rt (generate_secret random) now) now
            ∷ []))
          user
          (current_code rt (generate_secret random) later)
          later
        ≡ ok true
  unfolding serve_all serve start
  start-confirm-verify s user random now later hn hl =
      let secret = generate_secret random in
      let pending : MfaRecord = record { user_id = user; secret = secret; confirmed = false } in
      let done : MfaRecord = record { user_id = user; secret = secret; confirmed = true } in
      let started = repo.upsert s pending in
      let token = current_code rt secret now in
      ap (λ (t : S). verify repo rt t user (current_code rt secret later) later)
        (confirm-upserts started pending token now (upsert-get s pending)
          (current_code-verifies secret now hn))
      ∙ verify-confirmed (repo.upsert started done) user secret _ later (upsert-get started done)
      ∙ current_code-verifies secret later hl
