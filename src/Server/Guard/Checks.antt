-- ===== src/Server/Guard/Checks.antt =====
-- What the guard admits, and what it answers to everything else.
use vault_keep.Base.{
  ℕ, Option, none, some, Bool, true, String, strip_prefix, ◌≡◌, ◌∙◌, ap, subst, refl, ◌↔◌, arith,
}
use vault_keep.Server.Token.{TokenClaims, Outside, TokenService, verify}
use vault_keep.Server.Token.RoundTrip.{verify_lem, IsGood}
use vault_keep.Server.Guard.{admitted, admit, bearer, authenticate}

-- The header carries a good token, its session has passed MFA, and its device is approved.
abbrev pub IsAllowed :
    Outside → TokenService → (String → String → Bool) → ℕ → Option String → TokenClaims → Type 0
IsAllowed out tokens is_approved now none claims = ⊥
IsAllowed out tokens is_approved now (some header) claims =
    (token : String) × (strip_prefix "Bearer " header ≡ some token)
    × IsGood out tokens now token claims
    × (claims.mfa ≡ true)
    × (is_approved claims.sub claims.did ≡ true)

module _ (out : Outside) (tokens : TokenService) (is_approved : String → String → Bool) (now : ℕ)
    (claims : TokenClaims) where
  passed :
      (c : TokenClaims)
      → admit out tokens is_approved now (some c) ≡ admitted claims
      → (c ≡ claims) × (c.mfa ≡ true) × (is_approved c.sub c.did ≡ true)
  passed c h = ground arith

  admit-some :
      (found : Option TokenClaims)
      → admit out tokens is_approved now found ≡ admitted claims
      → (found ≡ some claims) × (claims.mfa ≡ true) × (is_approved claims.sub claims.did ≡ true)
  admit-some none h = cc
  admit-some (some c) h =
      let (same, mfa, device) = passed c h in
      (
        ap some same,
        subst (λ (x : TokenClaims). x.mfa ≡ true) same mfa,
        subst (λ (x : TokenClaims). is_approved x.sub x.did ≡ true) same device,
      )

  bearer-some :
      (token : Option String)
      → bearer out tokens is_approved now token ≡ admitted claims
      → (t : String) × (token ≡ some t)
        × (admit out tokens is_approved now (verify out tokens now t) ≡ admitted claims)
  bearer-some none h = cc
  bearer-some (some t) h = (t, refl, h)

  authenticate-IsAllowed :
      (header : Option String)
      → authenticate out tokens is_approved now header ≡ admitted claims
      → IsAllowed out tokens is_approved now header claims
  unfolding authenticate
  authenticate-IsAllowed none h = cc
  authenticate-IsAllowed (some header) h =
      let (t, found, rest) = bearer-some (strip_prefix "Bearer " header) h in
      let (verified, mfa, device) = admit-some (verify out tokens now t) rest in
      (t, found, (verify_lem out tokens now claims t).0 verified, mfa, device)

  IsAllowed-authenticate :
      (header : Option String)
      → IsAllowed out tokens is_approved now header claims
      → authenticate out tokens is_approved now header ≡ admitted claims
  unfolding authenticate
  IsAllowed-authenticate none h = absurd h
  IsAllowed-authenticate (some header) (t, found, good, mfa, device) =
      ap (bearer out tokens is_approved now) found
      ∙ ap (admit out tokens is_approved now) ((verify_lem out tokens now claims t).1 good)
      ∙ rw (mfa, device) refl

  -- The guard admits a request with the claims just when its header carries a good token, the
  -- session has passed MFA and the device is approved.
  pub authenticate_lem :
      (header : Option String)
      → (authenticate out tokens is_approved now header ≡ admitted claims)
        ↔ IsAllowed out tokens is_approved now header claims
  authenticate_lem header = (authenticate-IsAllowed header, IsAllowed-authenticate header)
