-- ===== src/Server/Devices.antt =====
-- packages/server/src/devices/device.service.ts: enrolling devices, and approving one by a trusted
-- device's signature. `verifyMessage` of the crypto package, which may throw on a malformed key, and
-- the results of `randomUUID` and of the clock are arguments.
pub mod Stores
pub mod Trust
mod Tests
use vault_keep.Base.{
  Option, none, some, Bool, true, false, not, if◌then◌else◌, ◌≡◌, List, [], ◌∷◌, String, ◌<>◌,
  Thrown, ok, throw, or_else,
}

pub record DeviceRecord : Type 0 where
  pub id : String
  pub user_id : String
  pub name : String
  pub platform : String
  pub public_key : String
  pub signing_public_key : String
  pub approved : Bool
  pub created_at : String

pub record DeviceRepository (S : Type 0) : Type 0 where
  pub list_for_user : S → String → List DeviceRecord
  pub get : S → String → String → Option DeviceRecord
  pub create : S → DeviceRecord → S
  pub set_approved : S → String → String → Bool → S

pub record EnrollInput : Type 0 where
  pub user_id : String
  pub name : String
  pub platform : String
  pub public_key : String
  pub signing_public_key : String

pub data ApproveResult : Type 0 where
  approved : ApproveResult
  refused : String → ApproveResult

abbrev pub is_empty : List DeviceRecord → Bool
is_empty [] = true
is_empty (_ ∷ _) = false

-- `approve-device:${targetDeviceId}`
unfoldable pub approval_message : String → String
approval_message target = "approve-device:" <> target

abbrev pub is_approved_record : Option DeviceRecord → Bool
is_approved_record none = false
is_approved_record (some d) = d.approved

abbrev pub enrolled : EnrollInput → Bool → String → String → DeviceRecord
enrolled input is_first uuid now = record {
  id = uuid;
  user_id = input.user_id;
  name = input.name;
  platform = input.platform;
  public_key = input.public_key;
  signing_public_key = input.signing_public_key;
  approved = is_first;
  created_at = now;
}

module _ {S : Type 0} (repo : DeviceRepository S) where
  unfoldable pub enroll : S → EnrollInput → String → String → S × DeviceRecord
  enroll s input uuid now =
      let existing = repo.list_for_user s input.user_id in
      let rec = enrolled input (is_empty existing) uuid now in (repo.create s rec, rec)

  module _ (verify : String → String → String → Thrown Bool) where
    abbrev approve_checked : S → String → DeviceRecord → String → String → S × Thrown ApproveResult
    approve_checked s user approver target signature =
        elim (verify approver.signing_public_key (approval_message target) signature) [
          | throw e ↦ (s, throw e)
          | ok valid ↦
              if not valid
              then (s, ok (refused "invalid approval signature"))
              else (repo.set_approved s user target true, ok approved)
        ]

    unfoldable pub approve : S → String → String → String → String → S × Thrown ApproveResult
    approve s user approver_id target_id signature = elim (repo.get s user approver_id) [
      | none ↦ (s, ok (refused "approver not found"))
      | some approver ↦
          if not approver.approved
          then (s, ok (refused "approver is not trusted"))
          else elim (repo.get s user target_id) [
            | none ↦ (s, ok (refused "target device not found"))
            | some target ↦ approve_checked s user approver target_id signature
          ]
    ]

  unfoldable pub is_approved : S → String → String → Bool
  is_approved s user device = is_approved_record (repo.get s user device)

  pub list : S → String → List DeviceRecord
  list s user = repo.list_for_user s user

-- A request to the service: an enrolment with the id and the time that it is given, or an approval.
pub data Request : Type 0 where
  enrolling : EnrollInput → String → String → Request
  approving : String → String → String → String → Request

module _ {S : Type 0} (repo : DeviceRepository S)
    (verify : String → String → String → Thrown Bool) where
  unfoldable pub serve : S → Request → S
  unfolding enroll approve
  serve s (enrolling input uuid now) = (enroll repo s input uuid now).0
  serve s (approving user approver target signature) =
      (approve repo verify s user approver target signature).0

  unfoldable pub serve_all : S → List Request → S
  serve_all s [] = s
  serve_all s (r ∷ rs) = serve_all (serve s r) rs
