-- ===== src/Desktop/Biometric/Recovers.antt =====
-- What the keystore hands back.
use vault_keep.Base.{
  ℕ, Option, none, some, Bool, true, false, not, ◌||◌, if◌then◌else◌, ◌==◌, List, String, truthy,
  ok, ◌>>=◌, length, ◌≡◌, ◌∙◌, ap, refl, Bool-cases, inl, inr,
}
use vault_keep.Desktop.Vault.{Key}
use vault_keep.Desktop.Biometric.{
  WrappedKey, SecureEnclave, Runtime, Recovered, Token, checked, enroll, unwrapped, kept,
  recover_key, recovered,
}

-- What enrolling relies on.
pub record IsKeystore (rt : Runtime) (enclave : SecureEnclave) : Type 0 where
  pub decrypt-encrypt : (text : String) → enclave.decrypt (enclave.encrypt text) ≡ ok text
  pub not_empty : (text : String) → truthy (enclave.encrypt text) ≡ true
  pub parse-stringify : (w : WrappedKey) → rt.parse (rt.stringify w) ≡ ok w
  pub from_base64-to_base64 : (bytes : List ℕ) → rt.from_base64 (rt.to_base64 bytes) ≡ bytes

nothing : {r : Recovered} → none ≡ some r → ⊥
nothing h = cc

there : (t a : Bool) → (not t || not a) ≡ false → a ≡ true
there true true h = refl
there true false h = cc
there false a h = cc

module _ (rt : Runtime) (enclave : SecureEnclave) where
  -- What is handed back was asked of a keystore that is there, and after a prompt that the user passed.
  recover_key-some :
      (token : Token) {r : Recovered}
      → (recover_key rt enclave token).1 ≡ some r
      → (enclave.is_available ≡ true) × (enclave.prompt_user ≡ true)
  unfolding recover_key
  recover_key-some none h = cc
  recover_key-some (some token) h =
      elim (Bool-cases (not (truthy token) || not enclave.is_available)) [
        | inl e ↦ absurd (nothing (rw e at h))
        | inr e ↦ elim (Bool-cases enclave.prompt_user) [
          | inl p ↦ (there (truthy token) enclave.is_available e, p)
          | inr p ↦ absurd (nothing (rw p at (rw e at h)))
        ]
      ]

  unwrapped-enrolled :
      (laws : IsKeystore rt enclave) (key : Key) (salt : String) (user : Option String)
      → length key ≡ 32
      → unwrapped rt enclave (
          enclave.encrypt
            (rt.stringify (record { key_b64 = rt.to_base64 key; salt_b64 = salt; user_id = user })))
        ≡ ok (record { key = key; salt_b64 = salt; user_id = user })
  unwrapped-enrolled laws key salt user size =
      let w : WrappedKey = record { key_b64 = rt.to_base64 key; salt_b64 = salt; user_id = user } in
      let finish = λ (v : WrappedKey).
        checked (length (rt.from_base64 v.key_b64) == 32) (recovered rt enclave v) in
      ap (λ t. t >>= λ text. rt.parse text >>= finish) (laws.decrypt-encrypt (rt.stringify w))
      ∙ ap (λ v. v >>= finish) (laws.parse-stringify w)
      ∙ ap
          (λ (bytes : Key).
            checked (length bytes == 32) (record { key = bytes; salt_b64 = salt; user_id = user }))
          (laws.from_base64-to_base64 key)
      ∙ ap (λ n. checked (n == 32) (record { key = key; salt_b64 = salt; user_id = user })) size

  -- A key of 32 bytes that was enrolled comes back with its salt and its account, when the keystore is
  -- there and the user passes the prompt; when the user does not, nothing comes back and the token stays.
  enroll-recover_key :
      (laws : IsKeystore rt enclave) (token : Token) (key : Key) (salt : String)
      (user : Option String)
      → length key ≡ 32
      → enclave.is_available ≡ true
      → (recover_key rt enclave (enroll rt enclave token key salt user).0) ≡ (
        (enroll rt enclave token key salt user).0,
        if enclave.prompt_user
            then some (record { key = key; salt_b64 = salt; user_id = user })
            else none,
      )
  unfolding enroll recover_key
  enroll-recover_key laws token key salt user size available =
      let blob =
        enclave.encrypt
          (rt.stringify (record { key_b64 = rt.to_base64 key; salt_b64 = salt; user_id = user })) in
      let full =
        laws.not_empty
          (rt.stringify (record { key_b64 = rt.to_base64 key; salt_b64 = salt; user_id = user })) in
      let found = unwrapped-enrolled laws key salt user size in
      rw available (
        rw full (elim (Bool-cases enclave.prompt_user) [
          | inl p ↦ rw p (ap (kept blob) found)
          | inr p ↦ rw p refl
        ]))
