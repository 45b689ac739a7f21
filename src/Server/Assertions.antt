-- ===== src/Server/Assertions.antt =====
-- packages/server/src/auth/webauthn.service.ts: a device signs a challenge with the key that it is
-- enrolled with. `verifyMessage`, the random challenge and the clock (milliseconds) are arguments.
mod Tests
pub mod Once
use vault_keep.Base.{
  ℕ, ◌+◌, ◌*◌, Option, none, some, Bool, true, false, ◌||◌, not, if◌then◌else◌, List, [], ◌∷◌,
  String, ◌<>◌, str_eq, Thrown, ok, throw, ltb,
}
use vault_keep.Base.Dict.{Dict, get, put}
use vault_keep.Server.Devices.{DeviceRecord, DeviceRepository}

pub record ChallengeRecord : Type 0 where
  pub challenge : String
  pub expires_at : ℕ
  pub used : Bool

abbrev pub ttl_ms : ℕ
ttl_ms = 2 * 60 * 1000

-- The challenges by `${userId}:${deviceId}`.
abbrev pub Challenges : Type 0
Challenges = Dict ChallengeRecord

abbrev pub key : String → String → String
key user device = user <> ":" <> device

unfoldable pub create_challenge : Challenges → ℕ → String → String → String → Challenges
create_challenge store now random user device =
    put (key user device) record { challenge = random; expires_at = now + ttl_ms; used = false }
      store

abbrev pub spent : ChallengeRecord → ChallengeRecord
spent rec = record rec { used = true }

module _ {S : Type 0} (devices : DeviceRepository S)
    (verify_message : String → String → String → Thrown Bool) (s : S) where
  abbrev pub checked : Option DeviceRecord → String → String → Thrown Bool
  checked none challenge signature = ok false
  checked (some device) challenge signature =
      if not device.approved
      then ok false
      else verify_message device.signing_public_key challenge signature

  -- What is done with the record that is found.
  abbrev pub verify_found :
      Challenges
      → ℕ
      → String
      → String
      → Option ChallengeRecord
      → String
      → String
      → Challenges × Thrown Bool
  verify_found store now user device none challenge signature = (store, ok false)
  verify_found store now user device (some rec) challenge signature =
      if rec.used || not (str_eq rec.challenge challenge) || ltb rec.expires_at now
      then (store, ok false)
      else (
        put (key user device) (spent rec) store,
        checked (devices.get s user device) challenge signature,
      )

  unfoldable pub verify_assertion :
      Challenges → ℕ → String → String → String → String → Challenges × Thrown Bool
  verify_assertion store now user device challenge signature =
      verify_found store now user device (get (key user device) store) challenge signature

-- A call, over the devices as they are at its time.
pub data Call (S : Type 0) : Type 0 where
  challenging : ℕ → String → String → String → Call S
  asserting : S → ℕ → String → String → String → String → Call S

module _ {S : Type 0} (devices : DeviceRepository S)
    (verify_message : String → String → String → Thrown Bool) where
  unfoldable pub serve : Challenges → Call S → Challenges
  serve store (challenging now random user device) = create_challenge store now random user device
  serve store (asserting s now user device challenge signature) =
      (verify_assertion devices verify_message s store now user device challenge signature).0

  unfoldable pub serve_all : Challenges → List (Call S) → Challenges
  serve_all store [] = store
  serve_all store (c ∷ cs) = serve_all (serve store c) cs
