-- ===== src/Server/Login/Flow.antt =====
-- From the first factor to the guard: what the tokens of the two routes open.
use vault_keep.Base.{
  ℕ, ◌+◌, ◌/◌, ◌≤◌, Option, none, some, Bool, true, false, if◌then◌else◌, List, String, ◌<>◌,
  Thrown, ok, throw, truthy, ◌≡◌, ◌∙◌, ap, sym, refl, arith, ltb, Bool-cases, inl, inr,
  strip_prefix-append,
}
use vault_keep.Server.Token as Token
use vault_keep.Server.Token.{TokenClaims, TokenService}
use vault_keep.Server.Token.RoundTrip.{IsNode, ReadsBack, verify-issue}
use vault_keep.Server.Guard.{admitted, denied, admit, bearer, authenticate}
use vault_keep.Server.Mfa as Mfa
use vault_keep.Server.Mfa.{MfaRepository}
use vault_keep.Server.Accounts as Accounts
use vault_keep.Server.Accounts.{AccountRecord, verify_login}
use vault_keep.Server.Login.{
  Answer, needs_device, mfa_required, full_token, logged_in, login, upgraded, mfa_step, mfa,
}

abbrev token_of : Answer → String
token_of (mfa_required token user) = token
token_of (full_token token) = token
token_of _ = ""

abbrev user_of : Answer → String
user_of (mfa_required token user) = user
user_of _ = ""

not-required : {u token user : String} → needs_device u ≡ mfa_required token user → ⊥
not-required h = cc

in_time : (a b : ℕ) → b ≤ a → ltb a b ≡ false
in_time a b h = ground arith

module _ (out : Token.Outside) (node : IsNode out) (tokens : TokenService)
    (accounts_rt : Accounts.Runtime) (mfa_rt : Mfa.Runtime) {S : Type 0} (repo : MfaRepository S)
    (is_approved : String → String → Bool) where
  abbrev pub granted : String → String → Bool → ℕ → ℕ → TokenClaims
  granted user device mfa ttl now = record {
    sub = user;
    did = device;
    mfa = mfa;
    exp = now / 1000 + ttl;
  }

  -- The guard before a token that was issued.
  authenticate-issue :
      (user device : String) (mfa : Bool) (ttl now later : ℕ)
      → ReadsBack out (granted user device mfa ttl now)
      → authenticate out tokens is_approved later
          (some ("Bearer " <> Token.issue out tokens user device mfa ttl now))
        ≡ admit out tokens is_approved later (
            if ltb (now / 1000 + ttl) (later / 1000)
            then none
            else some (granted user device mfa ttl now))
  unfolding authenticate
  authenticate-issue user device mfa ttl now later reads =
      ap (bearer out tokens is_approved later) (strip_prefix-append "Bearer " _)
      ∙ ap (admit out tokens is_approved later)
          (verify-issue out node tokens user device mfa ttl now later reads)

  logged_in-token :
      (o : Option String) (device token user : String) (now : ℕ)
      → logged_in out tokens accounts_rt mfa_rt repo o device now ≡ mfa_required token user
      → Token.issue out tokens user device false 300 now ≡ token
  logged_in-token none device token user now h = cc
  logged_in-token (some u) device token user now h = elim (Bool-cases (truthy device)) [
    | inl e ↦
        let same = rw e at h in
        ap (λ (v : String). Token.issue out tokens v device false 300 now) (sym (ap user_of same))
        ∙ ap token_of same
    | inr e ↦ absurd (not-required (rw e at h))
  ]

  mfa_step-token :
      (s : S) (claims : TokenClaims) (code token : String) (now : ℕ) (r : Thrown Bool)
      → upgraded out tokens accounts_rt mfa_rt repo claims now r ≡ full_token token
      → (r ≡ ok true) × (Token.issue out tokens claims.sub claims.did true 3600 now ≡ token)
  mfa_step-token s claims code token now (throw e) h = cc
  mfa_step-token s claims code token now (ok false) h = cc
  mfa_step-token s claims code token now (ok true) h = (refl, ap token_of h)

  -- A token of the first factor alone opens nothing: the guard refuses it for want of MFA, and after
  -- its five minutes as expired.
  pub login-authenticate :
      (accounts : List AccountRecord) (email verifier device : String) (now later : ℕ)
      (token user : String)
      → ReadsBack out (granted user device false 300 now)
      → login out tokens accounts_rt mfa_rt repo accounts email verifier device now
        ≡ mfa_required token user
      → authenticate out tokens is_approved later (some ("Bearer " <> token)) ≡ (
          if ltb (now / 1000 + 300) (later / 1000)
          then denied 401 "invalid or expired token"
          else denied 403 "MFA required")
  unfolding login
  login-authenticate accounts email verifier device now later token user reads h =
      let same =
        logged_in-token (verify_login accounts_rt accounts email verifier) device token user now
          h in
      ap (λ (t : String). authenticate out tokens is_approved later (some ("Bearer " <> t)))
        (sym same)
      ∙ authenticate-issue user device false 300 now later reads
      ∙ elim (Bool-cases (ltb (now / 1000 + 300) (later / 1000))) [
        | inl e ↦ rw e refl
        | inr e ↦ rw e refl
      ]

  admit-granted :
      (user device : String) (now : ℕ) (later : ℕ)
      → admit out tokens is_approved later (some (granted user device true 3600 now)) ≡ (
          if is_approved user device
          then admitted (granted user device true 3600 now)
          else denied 403 "device not approved")
  admit-granted user device now later = elim (Bool-cases (is_approved user device)) [
    | inl e ↦ rw e refl
    | inr e ↦ rw e refl
  ]

  -- The route /auth/mfa gives a full token in exchange for a good token only with a code that verifies
  -- for its user; and within the hour of that token the guard admits that user's device just when the device is approved.
  pub mfa-authenticate :
      (s : S) (pre code : String) (now later : ℕ) (token : String) (claims : TokenClaims)
      → ReadsBack out (granted claims.sub claims.did true 3600 now)
      → Token.verify out tokens now pre ≡ some claims
      → mfa out tokens accounts_rt mfa_rt repo s pre code now ≡ full_token token
      → later / 1000 ≤ now / 1000 + 3600
      → (Mfa.verify repo mfa_rt s claims.sub code now ≡ ok true)
        × (authenticate out tokens is_approved later (some ("Bearer " <> token)) ≡ (
            if is_approved claims.sub claims.did
            then admitted (granted claims.sub claims.did true 3600 now)
            else denied 403 "device not approved"))
  unfolding mfa
  mfa-authenticate s pre code now later token claims reads good h hl =
      let (passes, same) =
        mfa_step-token s claims code token now (Mfa.verify repo mfa_rt s claims.sub code now) (
          ap (λ (o : Option TokenClaims). mfa_step out tokens accounts_rt mfa_rt repo s o code now)
            (sym good)
          ∙ h) in
      (
        passes,
        ap (λ (t : String). authenticate out tokens is_approved later (some ("Bearer " <> t)))
              (sym same)
            ∙ authenticate-issue claims.sub claims.did true 3600 now later reads
            ∙ ap
                (λ (b : Bool).
                  admit out tokens is_approved later
                    (if b then none else some (granted claims.sub claims.did true 3600 now)))
                (in_time (now / 1000 + 3600) (later / 1000) hl)
            ∙ admit-granted claims.sub claims.did now later,
      )
