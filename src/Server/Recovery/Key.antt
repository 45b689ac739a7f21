-- ===== src/Server/Recovery/Key.antt =====
-- The recovery key: what `setup` stores and `begin` hands back.
use vault_keep.Base.{
  ℕ, none, some, if◌then◌else◌, ◌≡◌, ◌∙◌, ap, [], ◌∷◌, String, str_eq, eq_iff, arith, ok,
  utf16_length, Thrown-cases, Bool-cases, inl, inr, ◌⊎◌, ◌<◌, ◌≢◌,
}
use vault_keep.Server.Recovery.{
  RecoveryRecord, RecoveryRepository, Runtime, recovery_key_used, setup, begin,
}
use vault_keep.Server.Recovery.Stores.{IsRepository}

-- Argon2 accepts the secret that was hashed, and no other: its collisions are left out.
abbrev pub IsArgon2 : Runtime → Type 0
IsArgon2 rt =
    (secret salt hash guess : String)
    → rt.hash_secret secret salt ≡ ok hash
    → rt.argon2_verify guess hash ≡ ok (str_eq guess secret)

module _ {S : Type 0} (repo : RecoveryRepository S) (laws : IsRepository repo) (rt : Runtime)
    (argon2 : IsArgon2 rt) where
  stored : ℕ → String → String → String → RecoveryRecord
  stored now user hash wrapped = record {
    user_id = user;
    verifier_hash = hash;
    wrapped_key = wrapped;
    created_at = rt.dates.iso now;
  }

  setup-eq-ok :
      (s s' : S) (now : ℕ) (salt user verifier wrapped : String)
      → setup repo rt s now salt user verifier wrapped ≡ ok s'
      → (hash : String) × (rt.hash_secret verifier salt ≡ ok hash)
        × (s' ≡ repo.upsert_recovery s (stored now user hash wrapped))
  unfolding setup stored
  setup-eq-ok s s' now salt user verifier wrapped h =
      elim (Thrown-cases (rt.hash_secret verifier salt)) [
        | inl (hash, hashed) ↦ (hash, hashed, ground arith)
        | inr (e, thrown) ↦ absurd (ground arith)
      ]

  begin-stored :
      (s : S) (rec : RecoveryRecord) (u guess secret : String)
      → repo.get_recovery s u ≡ some rec
      → rt.argon2_verify guess rec.verifier_hash ≡ ok (str_eq guess secret)
      → begin repo rt s u guess ≡ (
          if str_eq guess secret
          then (some rec.wrapped_key, recovery_key_used u ∷ [])
          else (none, []))
  unfolding begin
  begin-stored s rec u guess secret found checked = ground arith

  begin-same :
      (s s' : S) (u guess : String)
      → repo.get_recovery s' u ≡ repo.get_recovery s u
      → begin repo rt s' u guess ≡ begin repo rt s u guess
  unfolding begin
  begin-same s s' u guess same = ground arith

  -- Where Argon2 has no collisions: after a setup that succeeds, its user gets the new wrapped key for the new verifier, with a notification, and
  -- nothing for any other verifier, so not for the one before; for every other user nothing changed.
  pub begin-setup :
      (s s' : S) (now : ℕ) (salt user verifier wrapped u guess : String)
      → setup repo rt s now salt user verifier wrapped ≡ ok s'
      → begin repo rt s' u guess ≡ (
          if str_eq user u
          then if str_eq guess verifier
            then (some wrapped, recovery_key_used u ∷ [])
            else (none, [])
          else begin repo rt s u guess)
  unfolding stored
  begin-setup s s' now salt user verifier wrapped u guess h =
      let (hash, hashed, put) = setup-eq-ok s s' now salt user verifier wrapped h in
      let rec = stored now user hash wrapped in
      let law = ap (λ t. repo.get_recovery t u) put ∙ laws.get_recovery-upsert_recovery s rec u in
      elim (Bool-cases (str_eq user u)) [
        | inl same ↦ rw same (
            begin-stored s' rec u guess verifier (rw same at law)
              (argon2 verifier salt hash guess hashed))
        | inr other ↦ rw other (begin-same s s' u guess (rw other at law))
      ]

  -- A verifier shorter than 16, or no wrapped key, is refused.
  pub setup-weak :
      (s : S) (now : ℕ) (salt user verifier wrapped : String)
      → (utf16_length verifier < 16) ⊎ (wrapped ≡ "")
      → (s' : S) → setup repo rt s now salt user verifier wrapped ≢ ok s'
  unfolding setup
  setup-weak s now salt user verifier wrapped weak s' h = ground (arith, eq_iff wrapped "")
