-- ===== src/Extension/Session.antt =====
-- packages/extension/src/session.ts: the unlocked session and its auto-lock. The state is what the
-- backend holds; the clock's answer is an argument of each operation.
pub mod Idle
mod Tests
use vault_keep.Base.{
  ℕ, ◌+◌, ◌*◌, ◌≤◌, Option, none, some, Bool, true, false, if◌then◌else◌, List, [], ◌∷◌, String,
  ltb, leb, length,
}
use vault_keep.Extension.Fill.{Credential}

pub record SessionData : Type 0 where
  pub credentials : List Credential
  pub expires_at : ℕ

-- 5 * 60 * 1000
abbrev pub default_auto_lock_ms : ℕ
default_auto_lock_ms = 5 * 60 * 1000

pub record Status : Type 0 where
  pub unlocked : Bool
  pub count : ℕ
  pub expires_at : Option ℕ

-- What the background worker does to the session, one event at a time.
pub data Event : Type 0 where
  activating : List Credential → Event
  reading : Event
  touching : Event
  locking : Event
  asking_status : Event

module _ (auto_lock_ms : ℕ) where
  unfoldable pub activate : List Credential → ℕ → Option SessionData → Option SessionData
  activate credentials now backend =
      some (record { credentials = credentials; expires_at = now + auto_lock_ms })

  -- An expired session is cleared on read.
  unfoldable pub credentials :
      ℕ → Option SessionData → Option (List Credential) × Option SessionData
  credentials now none = (none, none)
  credentials now (some held) =
      if ltb held.expires_at now then (none, none) else (some held.credentials, some held)

  unfoldable pub touch : ℕ → Option SessionData → Option SessionData
  touch now none = none
  touch now (some held) =
      if leb now held.expires_at
      then some (record { credentials = held.credentials; expires_at = now + auto_lock_ms })
      else some held

  unfoldable pub lock : Option SessionData → Option SessionData
  lock backend = none

  abbrev pub expiry : Option SessionData → Option ℕ
  expiry none = none
  expiry (some held) = some held.expires_at

  abbrev pub status_of : Option (List Credential) × Option SessionData → Status × Option SessionData
  status_of (none, backend) = (record { unlocked = false; count = 0; expires_at = none }, backend)
  status_of (some credentials, backend) =
      (record { unlocked = true; count = length credentials; expires_at = expiry backend }, backend)

  unfoldable pub status : ℕ → Option SessionData → Status × Option SessionData
  status now backend = status_of (credentials now backend)

  unfoldable pub handle : Option SessionData → ℕ × Event → Option SessionData
  handle backend (now, activating cs) = activate cs now backend
  handle backend (now, reading) = (credentials now backend).1
  handle backend (now, touching) = touch now backend
  handle backend (now, locking) = lock backend
  handle backend (now, asking_status) = (status now backend).1

  unfoldable pub handle_all : Option SessionData → List (ℕ × Event) → Option SessionData
  handle_all backend [] = backend
  handle_all backend (e ∷ es) = handle_all (handle backend e) es
