-- ===== src/Server/Token/RoundTrip.antt =====
-- Issued tokens verify, and verified tokens are signed and fresh.
use vault_keep.Base.{
  ℕ, ◌+◌, ◌/◌, ◌≤◌, none, some, Bool, if◌then◌else◌, List, [], ◌∷◌, String, Thrown, ok, throw,
  eq_iff, ltb, split_on, split_on-NoChar, split_on-append, NoChar, ◌≡◌, ◌∙◌, ap, refl, arith,
  eq_refl, subst, ◌↔◌, ◌<>◌,
}
use text.Mathlib.TextLemmas.{nil-append, cons-append, append_assoc}
use vault_keep.Server.Token.{
  checked, unexpired, TokenClaims, Outside, TokenService, b64url, b64url_text, standard, signature,
  dotted, issue, verify, header_json, strip_padding, replace_all,
}
use vault_keep.Server.Token.Base64.{
  replace_all-strip_padding, replace_all_back, NoChar-replace_all, NoChar-strip_padding,
}

-- What the service relies on: base64 is written in its own alphabet, which has no `-`, `_` and `.`.
pub record IsNode (out : Outside) : Type 0 where
  pub no_dash : (bytes : List ℕ) → NoChar b'-' (out.to_base64 bytes)
  pub no_low_line : (bytes : List ℕ) → NoChar b'_' (out.to_base64 bytes)
  pub no_dot : (bytes : List ℕ) → NoChar b'.' (out.to_base64 bytes)

-- JSON, UTF-8 and base64 without its padding read back the claims. (They do unless a text of the
-- claims has a lone surrogate.)
abbrev pub ReadsBack : Outside → TokenClaims → Type 0
ReadsBack out claims =
    out.parse (out.from_base64 (strip_padding (out.to_base64 (out.utf8 (out.stringify claims)))))
    ≡ ok claims

module _ (out : Outside) (node : IsNode out) where
  b64url-NoDot : (bytes : List ℕ) → NoChar b'.' (b64url out bytes)
  unfolding b64url
  b64url-NoDot bytes = NoChar-strip_padding b'.' _ (
      NoChar-replace_all b'.' b'/' "_" _ (omega arith)
        (NoChar-replace_all b'.' b'+' "-" _ (omega arith) (node.no_dot bytes)))

  standard-b64url :
      (bytes : List ℕ) → standard out (b64url out bytes) ≡ strip_padding (out.to_base64 bytes)
  unfolding b64url
  standard-b64url bytes =
      let u = replace_all b'/' "_" (replace_all b'+' "-" (out.to_base64 bytes)) in
      ap (replace_all b'_' "/") (replace_all-strip_padding b'-' "+" u (omega arith) (omega arith))
      ∙ replace_all-strip_padding b'_' "/" (replace_all b'-' "+" u) (omega arith) (omega arith)
      ∙ ap strip_padding
          (replace_all_back (out.to_base64 bytes) (node.no_dash bytes) (node.no_low_line bytes))

  b64url_text-NoDot : (text : String) → NoChar b'.' (b64url_text out text)
  unfolding b64url_text
  b64url_text-NoDot text = b64url-NoDot (out.utf8 text)

  -- The payload of a token reads back as its claims.
  payload :
      (claims : TokenClaims)
      → ReadsBack out claims
      → out.parse (out.from_base64 (standard out (b64url_text out (out.stringify claims))))
        ≡ ok claims
  unfolding b64url_text
  payload claims reads =
      ap (λ (s : String). out.parse (out.from_base64 s))
        (standard-b64url (out.utf8 (out.stringify claims)))
      ∙ reads

  split-dotted : (a b : String) → NoChar b'.' a → split_on b'.' (dotted a b) ≡ a ∷ split_on b'.' b
  split-dotted a b h =
      ap (λ (t : String). split_on b'.' (a <> t))
        (cons-append "." String.[] b ∙ ap (String.◌∷◌ ".") (nil-append b))
      ∙ split_on-append "." a b h

  -- The three parts of a token come apart again.
  split-token :
      (h p sig : String)
      → NoChar b'.' h
      → NoChar b'.' p
      → NoChar b'.' sig
      → split_on b'.' (dotted (dotted h p) sig) ≡ h ∷ p ∷ sig ∷ []
  split-token h p sig hh hp hs =
      ap (split_on b'.') (append_assoc h _ _ ∙ ap (◌<>◌ h) (append_assoc "." p _))
      ∙ split-dotted h (dotted p sig) hh
      ∙ ap (◌∷◌ h) (split-dotted p sig hp ∙ ap (◌∷◌ p) (split_on-NoChar b'.' sig hs))

  -- A token that the service issued for claims that read back verifies to them up to the second of
  -- their expiry, and not after it.
  pub verify-issue :
      (service : TokenService) (sub did : String) (mfa : Bool) (ttl now later : ℕ)
      → ReadsBack out (record { sub = sub; did = did; mfa = mfa; exp = now / 1000 + ttl })
      → verify out service later (issue out service sub did mfa ttl now) ≡ (
          if ltb (now / 1000 + ttl) (later / 1000)
          then none
          else some (record { sub = sub; did = did; mfa = mfa; exp = now / 1000 + ttl }))
  unfolding verify issue
  verify-issue service sub did mfa ttl now later reads =
      let claims : TokenClaims = record {
        sub = sub;
        did = did;
        mfa = mfa;
        exp = now / 1000 + ttl;
      } in
      let h = b64url_text out header_json in
      let p = b64url_text out (out.stringify claims) in
      ap (checked out service later) (
        split-token h p _ (b64url_text-NoDot header_json) (b64url_text-NoDot (out.stringify claims))
          (b64url-NoDot _))
      ∙ rw (eq_refl (signature out service (dotted h p)), payload claims reads) refl

-- The token has three parts, the last signs the first two, and the second says claims that have
-- not expired.
abbrev pub IsGood : Outside → TokenService → ℕ → String → TokenClaims → Type 0
IsGood out service now token claims =
    (h : String) × (p : String) × (split_on b'.' token
      ≡ h ∷ p ∷ signature out service (dotted h p) ∷ [])
    × (out.parse (out.from_base64 (standard out p)) ≡ ok claims)
    × (now / 1000 ≤ claims.exp)

module _ (out : Outside) (service : TokenService) (now : ℕ) (claims : TokenClaims) where
  unexpired-some :
      (c : TokenClaims)
      → unexpired out (ok c) now ≡ some claims
      → (c ≡ claims) × (now / 1000 ≤ c.exp)
  unexpired-some c h = ground arith

  unexpired-fresh : now / 1000 ≤ claims.exp → unexpired out (ok claims) now ≡ some claims
  unexpired-fresh h = ground arith

  fresh :
      (r : Thrown TokenClaims)
      → unexpired out r now ≡ some claims
      → (r ≡ ok claims) × (now / 1000 ≤ claims.exp)
  fresh (throw e) h = cc
  fresh (ok c) h =
      let (same, time) = unexpired-some c h in
      (ap ok same, subst (λ (x : TokenClaims). now / 1000 ≤ x.exp) same time)

  checked-three :
      (h p sig : String)
      → checked out service now (h ∷ p ∷ sig ∷ []) ≡ some claims
      → (sig ≡ signature out service (dotted h p))
        × (unexpired out (out.parse (out.from_base64 (standard out p))) now ≡ some claims)
  checked-three h p sig e = ground (arith, eq_iff sig (signature out service (dotted h p)))

  checked-some :
      (token : String) (parts : List String)
      → split_on b'.' token ≡ parts
      → checked out service now parts ≡ some claims
      → IsGood out service now token claims
  checked-some token (h ∷ p ∷ sig ∷ []) e good =
      let (signed, rest) = checked-three h p sig good in
      let (said, time) = fresh _ rest in
      (h, p, e ∙ ap (λ (s : String). h ∷ p ∷ s ∷ []) signed, said, time)
  checked-some token [] e good = cc
  checked-some token (h ∷ []) e good = cc
  checked-some token (h ∷ p ∷ []) e good = cc
  checked-some token (h ∷ p ∷ sig ∷ x ∷ xs) e good = cc

  -- `verify` accepts a token just when it is signed with the service's secret and has not expired.
  pub verify_lem :
      (token : String)
      → (verify out service now token ≡ some claims) ↔ IsGood out service now token claims
  unfolding verify
  verify_lem token = (
    checked-some token _ refl,
    λ (h, p, parts, said, time).
        ap (checked out service now) parts
        ∙ rw (eq_refl (signature out service (dotted h p)), said) (unexpired-fresh time),
  )
