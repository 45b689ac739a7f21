-- ===== src/Server/Mfa/Codes.antt =====
-- Which one-time codes verify.
use vault_keep.Base.{
  ℕ, zero, suc, ◌+◌, ◌≤◌, true, ◌||◌, String, ok, ◌≡◌, ◌∙◌, ap, ◌↔◌, ◌⊎◌, inl, inr, arith, str_eq,
  eq_iff,
}
use vault_keep.Server.Mfa.{Runtime, code_at, counter_at, drifts, verify_totp}

-- The code of a step at most one away from the time's.
abbrev pub IsNear : Runtime → String → String → ℕ → Type 0
IsNear rt secret token now =
    (step : ℕ) × (step ≤ counter_at now + 1)
    × (counter_at now ≤ step + 1)
    × (code_at rt secret step ≡ token)

module _ (rt : Runtime) (secret token : String) where
  one_of :
      (a b c : String)
      → ok (str_eq a token || (str_eq b token || str_eq c token)) ≡ ok true
      → (a ≡ token) ⊎ ((b ≡ token) ⊎ (c ≡ token))
  one_of a b c h = ground (arith, eq_iff a token, eq_iff b token, eq_iff c token)

  any_of :
      (a b c : String)
      → (a ≡ token) ⊎ ((b ≡ token) ⊎ (c ≡ token))
      → ok (str_eq a token || (str_eq b token || str_eq c token)) ≡ ok true
  any_of a b c h = ground (arith, eq_iff a token, eq_iff b token, eq_iff c token)

  close :
      (b step : ℕ)
      → step ≤ suc b + 1
      → suc b ≤ step + 1
      → (b ≡ step) ⊎ ((suc b ≡ step) ⊎ (suc (suc b) ≡ step))
  close b step hs hc = omega arith

  drifts-true :
      (c : ℕ)
      → drifts rt secret token c ≡ ok true
      → (step : ℕ) × (step ≤ c + 1) × (c ≤ step + 1) × (code_at rt secret step ≡ token)
  drifts-true zero h = cc
  drifts-true (suc b) h =
      elim (one_of (code_at rt secret b) (code_at rt secret (suc b))
        (code_at rt secret (suc (suc b))) h) [
          | inl e ↦ (b, omega arith, omega arith, e)
          | inr (inl e) ↦ (suc b, omega arith, omega arith, e)
          | inr (inr e) ↦ (suc (suc b), omega arith, omega arith, e)
        ]

  near-drifts :
      (c step : ℕ)
      → 1 ≤ c
      → step ≤ c + 1
      → c ≤ step + 1
      → code_at rt secret step ≡ token
      → drifts rt secret token c ≡ ok true
  near-drifts zero step h hs hc e = absurd (omega arith)
  near-drifts (suc b) step h hs hc e =
      any_of (code_at rt secret b) (code_at rt secret (suc b)) (code_at rt secret (suc (suc b)))
        (elim (close b step hs hc) [
          | inl s ↦ inl (ap (code_at rt secret) s ∙ e)
          | inr (inl s) ↦ inr (inl (ap (code_at rt secret) s ∙ e))
          | inr (inr s) ↦ inr (inr (ap (code_at rt secret) s ∙ e))
        ])

  -- After the first step of 1970, a token verifies just when it is the code of the time's step, of
  -- the one before or of the one after.
  pub verify_totp_lem :
      (now : ℕ)
      → 30000 ≤ now
      → (verify_totp rt secret token now ≡ ok true) ↔ IsNear rt secret token now
  unfolding verify_totp
  verify_totp_lem now h = (
    drifts-true (counter_at now),
    λ (step, hs, hc, e). near-drifts (counter_at now) step (omega arith) hs hc e,
  )
