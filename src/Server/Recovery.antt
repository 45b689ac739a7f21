-- ===== src/Server/Recovery.antt =====
-- packages/server/src/recovery/recovery.service.ts: the recovery key, and emergency contacts with
-- their waiting period. Outside code is an argument: `verifyMessage` of the crypto package, the
-- Argon2 functions, the clock, `randomUUID`, and JavaScript's dates. Times are ones that a `Date` can
-- hold: for a wait that leads past them, `requestAccess` sets the state of the row to pending and then
-- throws the RangeError of `toISOString`, which is not modelled.
pub mod Stores
pub mod Calls
pub mod Steps
pub mod Wait
pub mod Key
mod Tests
use vault_keep.Base.{
  ℕ, ◌+◌, ◌*◌, ◌≤◌, Option, none, some, Bool, true, false, not, ◌||◌, if◌then◌else◌, ◌≡◌, List, [],
  ◌∷◌, String, ◌<>◌, Thrown, ok, throw, truthy, utf16_length, ltb, str_eq,
}
use vault_keep.Base.Int.{ℤ, pos, ltb_ℤ}

-- `new Date(t).toISOString()`, and `Date.parse` with `none` for NaN. A date that is written can be
-- read back, up to the last instant that a `Date` can hold.
pub record Dates : Type 0 where
  pub iso : ℕ → String
  pub parse : String → Option ℤ
  pub parse-iso : (t : ℕ) → t ≤ 8640000000000000 → parse (iso t) ≡ some (pos t)

pub record RecoveryRecord : Type 0 where
  pub user_id : String
  pub verifier_hash : String
  pub wrapped_key : String
  pub created_at : String

pub data EmergencyState : Type 0 where
  enrolled pending denied released : EmergencyState

pub record Contact : Type 0 where
  pub id : String
  pub user_id : String
  pub contact_email : String
  pub contact_signing_public_key : String
  pub ephemeral_public_key : String
  pub wrapped_key : String
  pub state : EmergencyState
  pub unlock_at : Option String
  pub created_at : String

pub record RecoveryRepository (S : Type 0) : Type 0 where
  pub get_recovery : S → String → Option RecoveryRecord
  pub upsert_recovery : S → RecoveryRecord → S
  pub list_contacts : S → String → List Contact
  pub get_contact : S → String → Option Contact
  pub create_contact : S → Contact → S
  pub update_contact : S → Contact → S

-- a call of the notifier
pub data Notice : Type 0 where
  emergency_requested : String → Contact → Notice
  emergency_denied : String → Contact → Notice
  emergency_released : String → Contact → Notice
  recovery_key_used : String → Notice

-- what `collect` returns
pub data Collected : Type 0 where
  refused : Collected
  waiting : Option String → Collected
  sealed : String → String → Collected

unfoldable pub default_wait_ms : ℕ
default_wait_ms = 7 * 24 * 60 * 60 * 1000

-- The outside code of the service.
pub record Runtime : Type 0 where
  pub dates : Dates
  pub verify : String → String → String → Thrown Bool
  pub hash_secret : String → String → Thrown String
  pub argon2_verify : String → String → Thrown Bool
  pub wait_ms : ℕ

pub record ContactInput : Type 0 where
  pub user_id : String
  pub contact_email : String
  pub contact_signing_public_key : String
  pub ephemeral_public_key : String
  pub wrapped_key : String

unfoldable pub request_message : String → String
request_message id = "emergency-request:" <> id

unfoldable pub collect_message : String → String
collect_message id = "emergency-collect:" <> id

-- `catch (() => false)`, and the `catch` of `verifySig`
abbrev pub or_false : Thrown Bool → Bool
or_false (ok b) = b
or_false (throw e) = false

-- `now < Date.parse(unlockAt)`, false where that is NaN; `Date.parse(null)` is NaN
abbrev pub is_before : ℕ → Option ℤ → Bool
is_before now none = false
is_before now (some t) = ltb_ℤ (pos now) t

abbrev pub parse_opt : (String → Option ℤ) → Option String → Option ℤ
parse_opt parse none = none
parse_opt parse (some s) = parse s

module _ {S : Type 0} (repo : RecoveryRepository S) (rt : Runtime) where
  unfoldable pub verify_sig : String → String → String → Bool
  verify_sig key message signature = or_false (rt.verify key message signature)

  -- `salt` is what `randomBytes` gives
  unfoldable pub setup : S → ℕ → String → String → String → String → Thrown S
  setup s now salt user auth_verifier wrapped_key =
      if ltb (utf16_length auth_verifier) 16
      then throw "verifier too weak"
      else if not (truthy wrapped_key)
      then throw "wrapped key required"
      else elim (rt.hash_secret auth_verifier salt) [
        | throw e ↦ throw e
        | ok hash ↦ ok (
            repo.upsert_recovery s (record {
              user_id = user;
              verifier_hash = hash;
              wrapped_key = wrapped_key;
              created_at = rt.dates.iso now;
            }))
      ]

  unfoldable pub is_configured : S → String → Bool
  is_configured s user = elim (repo.get_recovery s user) [ none ↦ false | some rec ↦ true ]

  unfoldable pub begin : S → String → String → Option String × List Notice
  begin s user auth_verifier = elim (repo.get_recovery s user) [
    | none ↦ (none, [])
    | some rec ↦
        if not (or_false (rt.argon2_verify auth_verifier rec.verifier_hash))
        then (none, [])
        else (some rec.wrapped_key, recovery_key_used user ∷ [])
  ]

  abbrev pub new_contact : ContactInput → String → ℕ → Contact
  new_contact input uuid now = record {
    id = uuid;
    user_id = input.user_id;
    contact_email = input.contact_email;
    contact_signing_public_key = input.contact_signing_public_key;
    ephemeral_public_key = input.ephemeral_public_key;
    wrapped_key = input.wrapped_key;
    state = enrolled;
    unlock_at = none;
    created_at = rt.dates.iso now;
  }

  unfoldable pub add_contact : S → ContactInput → String → ℕ → S × Thrown Contact
  add_contact s input uuid now =
      if not (truthy input.contact_signing_public_key)
        || not (truthy input.wrapped_key)
        || not (truthy input.ephemeral_public_key)
      then (s, throw "contact key material required")
      else (repo.create_contact s (new_contact input uuid now), ok (new_contact input uuid now))

  abbrev pub requested : Contact → ℕ → Contact
  requested c now = record c { state = pending; unlock_at = some (rt.dates.iso (now + rt.wait_ms)) }

  abbrev request_in : EmergencyState → S → Contact → ℕ → S × Option (Option String) × List Notice
  request_in denied s c now = (s, none, [])
  request_in released s c now = (s, none, [])
  request_in pending s c now = (s, some c.unlock_at, [])
  request_in enrolled s c now = (
    repo.update_contact s (requested c now),
    some (requested c now).unlock_at,
    emergency_requested c.user_id (requested c now) ∷ [],
  )

  unfoldable pub request_access : S → String → String → ℕ → S × Option (Option String) × List Notice
  unfolding verify_sig
  request_access s id signature now = elim (repo.get_contact s id) [
    | none ↦ (s, none, [])
    | some c ↦
        if not (verify_sig c.contact_signing_public_key (request_message id) signature)
        then (s, none, [])
        else request_in c.state s c now
  ]

  abbrev pub is_pending : EmergencyState → Bool
  is_pending pending = true
  is_pending _ = false

  abbrev pub refusal : Contact → Contact
  refusal c = record c { state = denied; unlock_at = none }

  unfoldable pub deny : S → String → String → S × Bool × List Notice
  deny s user id = elim (repo.get_contact s id) [
    | none ↦ (s, false, [])
    | some c ↦
        if not (str_eq c.user_id user) || not (is_pending c.state)
        then (s, false, [])
        else (repo.update_contact s (refusal c), true, emergency_denied user (refusal c) ∷ [])
  ]

  abbrev pub handed_over : Contact → Contact
  handed_over c = record c { state = released }

  abbrev blob : Contact → Collected
  blob c = sealed c.ephemeral_public_key c.wrapped_key

  abbrev collect_in : EmergencyState → S → Contact → ℕ → S × Collected × List Notice
  collect_in denied s c now = (s, refused, [])
  collect_in enrolled s c now = (s, refused, [])
  collect_in released s c now = (s, blob c, [])
  collect_in pending s c now =
      if is_before now (parse_opt rt.dates.parse c.unlock_at)
      then (s, waiting c.unlock_at, [])
      else (
        repo.update_contact s (handed_over c),
        blob c,
        emergency_released c.user_id (handed_over c) ∷ [],
      )

  unfoldable pub collect : S → String → String → ℕ → S × Collected × List Notice
  unfolding verify_sig
  collect s id signature now = elim (repo.get_contact s id) [
    | none ↦ (s, refused, [])
    | some c ↦
        if not (verify_sig c.contact_signing_public_key (collect_message id) signature)
        then (s, refused, [])
        else collect_in c.state s c now
  ]

-- A call of the service about contacts, with the time at which it is made.
pub data Event : Type 0 where
  adding : ContactInput → String → Event
  requesting : String → String → Event
  denying : String → String → Event
  collecting : String → String → Event

module _ {S : Type 0} (repo : RecoveryRepository S) (rt : Runtime) where
  unfoldable pub serve : S → Event → ℕ → S × List Notice
  unfolding add_contact request_access deny collect
  serve s (adding input uuid) now = ((add_contact repo rt s input uuid now).0, [])
  serve s (requesting id signature) now =
      let (s', _, notices) = request_access repo rt s id signature now in (s', notices)
  serve s (denying user id) now = let (s', _, notices) = deny repo rt s user id in (s', notices)
  serve s (collecting id signature) now =
      let (s', _, notices) = collect repo rt s id signature now in (s', notices)

  -- The sealed key that the answer to a call carries: the ephemeral key and the wrapped key.
  abbrev pub carried : Collected → Option (String × String)
  carried (sealed ephemeral wrapped) = some (ephemeral, wrapped)
  carried refused = none
  carried (waiting unlock_at) = none

  -- Only `collect` has an answer that can carry one.
  unfoldable pub handed : S → Event → ℕ → Option (String × String)
  handed s (collecting id signature) now = carried (collect repo rt s id signature now).1
  handed s (adding input uuid) now = none
  handed s (requesting id signature) now = none
  handed s (denying user id) now = none
