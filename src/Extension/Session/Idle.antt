-- ===== src/Extension/Session/Idle.antt =====
-- The auto-lock: a session that nothing renews is gone, whether or not a timer fired.
use vault_keep.Base.{
  ℕ, ◌+◌, ◌≤◌, ◌<◌, Option, none, some, false, List, [], ◌∷◌, ltb, leb, All, ◌≡◌, refl, arith,
  lt→ltb, le→leb, Bool-cases, inl, inr,
}
use vault_keep.Extension.Fill.{Credential}
use vault_keep.Extension.Session.{
  SessionData, activate, credentials, touch, lock, status, Event, activating, reading, touching,
  locking, asking_status, handle, handle_all,
}

module _ (auto_lock_ms : ℕ) where
  -- The session, if there is one, ends at most the auto-lock time after `u`.
  abbrev pub EndsBy : ℕ → Option SessionData → Type 0
  EndsBy u none = Unit
  EndsBy u (some held) = held.expires_at ≤ u + auto_lock_ms

  -- The event does not come after `u`, or it is not one that starts or renews a session.
  abbrev pub RenewsBy : ℕ → ℕ × Event → Type 0
  RenewsBy u (now, activating cs) = now ≤ u
  RenewsBy u (now, touching) = now ≤ u
  RenewsBy u (now, reading) = Unit
  RenewsBy u (now, locking) = Unit
  RenewsBy u (now, asking_status) = Unit

  ltb_of_le : (a b : ℕ) → a ≤ b → ltb b a ≡ false
  ltb_of_le a b h = ground arith

  credentials-EndsBy :
      (u now : ℕ) (backend : Option SessionData)
      → EndsBy u backend
      → EndsBy u (credentials auto_lock_ms now backend).1
  unfolding credentials
  credentials-EndsBy u now none hb = tt
  credentials-EndsBy u now (some held) hb = elim (Bool-cases (ltb held.expires_at now)) [
    | inl e ↦ rw e tt
    | inr e ↦ rw e hb
  ]

  status-credentials :
      (now : ℕ) (backend : Option SessionData)
      → (status auto_lock_ms now backend).1 ≡ (credentials auto_lock_ms now backend).1
  unfolding status credentials
  status-credentials now none = refl
  status-credentials now (some held) = elim (Bool-cases (ltb held.expires_at now)) [
    | inl e ↦ rw e refl
    | inr e ↦ rw e refl
  ]

  touch-EndsBy :
      (u now : ℕ) (backend : Option SessionData)
      → now ≤ u
      → EndsBy u backend
      → EndsBy u (touch auto_lock_ms now backend)
  unfolding touch
  touch-EndsBy u now none hu hb = tt
  touch-EndsBy u now (some held) hu hb = elim (Bool-cases (leb now held.expires_at)) [
    | inl e ↦ rw e (omega arith)
    | inr e ↦ rw e hb
  ]

  handle-EndsBy :
      (u : ℕ) (backend : Option SessionData) (e : ℕ × Event)
      → EndsBy u backend
      → RenewsBy u e
      → EndsBy u (handle auto_lock_ms backend e)
  unfolding handle activate lock
  handle-EndsBy u backend (now, activating cs) hb he = omega arith
  handle-EndsBy u backend (now, reading) hb he = credentials-EndsBy u now backend hb
  handle-EndsBy u backend (now, touching) hb he = touch-EndsBy u now backend he hb
  handle-EndsBy u backend (now, locking) hb he = tt
  handle-EndsBy u backend (now, asking_status) hb he =
      rw (status-credentials now backend) (credentials-EndsBy u now backend hb)

  handle_all-EndsBy :
      (u : ℕ) (backend : Option SessionData) (es : List (ℕ × Event))
      → EndsBy u backend
      → All (RenewsBy u) es
      → EndsBy u (handle_all auto_lock_ms backend es)
  unfolding handle_all
  handle_all-EndsBy u backend [] hb he = hb
  handle_all-EndsBy u backend (e ∷ es) hb (he, hes) =
      handle_all-EndsBy u (handle auto_lock_ms backend e) es (handle-EndsBy u backend e hb he) hes

  expired :
      (u now : ℕ) (backend : Option SessionData)
      → EndsBy u backend
      → u + auto_lock_ms < now
      → credentials auto_lock_ms now backend ≡ (none, none)
  unfolding credentials
  expired u now none hb h = refl
  expired u now (some held) hb h = rw (lt→ltb held.expires_at now (omega arith)) refl

  -- From the locked state, once nothing has started or renewed a session after the time `u`, a read
  -- later than the auto-lock time after `u` gives no credentials, and leaves none in the backend,
  -- whatever else was read, locked or asked between.
  pub auto_lock :
      (u now : ℕ) (es : List (ℕ × Event))
      → All (RenewsBy u) es
      → u + auto_lock_ms < now
      → credentials auto_lock_ms now (handle_all auto_lock_ms none es) ≡ (none, none)
  auto_lock u now es he h = expired u now _ (handle_all-EndsBy u none es tt he) h

  -- Within the auto-lock time a read gives what was activated last, and a use renews that time.
  pub activate-touch-credentials :
      (cs : List Credential) (backend : Option SessionData) (t u now : ℕ)
      → u ≤ t + auto_lock_ms
      → now ≤ u + auto_lock_ms
      → (credentials auto_lock_ms now (touch auto_lock_ms u (activate auto_lock_ms cs t backend))).0
        ≡ some cs
  unfolding credentials touch activate
  activate-touch-credentials cs backend t u now hu hn =
      rw (le→leb u (t + auto_lock_ms) hu, ltb_of_le now (u + auto_lock_ms) hn) refl
