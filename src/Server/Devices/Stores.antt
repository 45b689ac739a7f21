-- ===== src/Server/Devices/Stores.antt =====
-- `FileDeviceRepository` of packages/server/src/store/filedb.ts, an array of rows. Writing the file
-- is not modelled: the array is what `db.raw.devices` holds.
use vault_keep.Base.{
  Option, none, some, Bool, ◌&&◌, if◌then◌else◌, ◌≡◌, refl, List, [], ◌∷◌, ◌++◌, String, str_eq,
  eq_iff, filter, arith,
}
use vault_keep.Base.Keyed.{find_key, find_key-push, pair_eq}
use vault_keep.Server.Devices.{DeviceRecord, DeviceRepository}

abbrev pub owned : String → DeviceRecord → Bool
owned user d = str_eq d.user_id user

abbrev pub row_key : DeviceRecord → String × String
row_key d = (d.user_id, d.id)

unfoldable pub file_list : List DeviceRecord → String → List DeviceRecord
file_list s user = filter (owned user) s

unfoldable pub file_get : List DeviceRecord → String → String → Option DeviceRecord
file_get s user id = find_key row_key (user, id) s

unfoldable pub file_create : List DeviceRecord → DeviceRecord → List DeviceRecord
file_create s rec = s ++ rec ∷ []

-- the row that `find` returns is changed in place
unfoldable pub file_set_approved : List DeviceRecord → String → String → Bool → List DeviceRecord
file_set_approved [] user id approved = []
file_set_approved (d ∷ s) user id approved =
    if str_eq d.user_id user && str_eq d.id id
    then record d { approved = approved } ∷ s
    else d ∷ file_set_approved s user id approved

abbrev pub file : DeviceRepository (List DeviceRecord)
file = record {
  list_for_user = file_list;
  get = file_get;
  create = file_create;
  set_approved = file_set_approved;
}

abbrev pub approve_as : Bool → Option DeviceRecord → Option DeviceRecord
approve_as b none = none
approve_as b (some d) = some (record d { approved = b })

-- What the service relies on. `UserId` holds of the user ids that the store tells apart.
pub record IsRepository {S : Type 0} (repo : DeviceRepository S) (UserId : String → Type 0)
    : Type 0 where
  pub get-create :
      (s : S) (rec : DeviceRecord) (user id : String)
      → UserId rec.user_id
      → UserId user
      → repo.get s rec.user_id rec.id ≡ none
      → repo.get (repo.create s rec) user id
        ≡ (if str_eq rec.user_id user && str_eq rec.id id then some rec else repo.get s user id)
  pub get-set_approved :
      (s : S) (owner target : String) (b : Bool) (user id : String)
      → UserId owner
      → UserId user
      → repo.get (repo.set_approved s owner target b) user id ≡ (
          if str_eq owner user && str_eq target id
          then approve_as b (repo.get s user id)
          else repo.get s user id)
  pub none_of_list :
      (s : S) (user id : String) → repo.list_for_user s user ≡ [] → repo.get s user id ≡ none

file_set_approved_lem :
    (s : List DeviceRecord) (owner target : String) (b : Bool) (user id : String)
    → file_get (file_set_approved s owner target b) user id ≡ (
        if str_eq owner user && str_eq target id
        then approve_as b (file_get s user id)
        else file_get s user id)
unfolding file_get file_set_approved
file_set_approved_lem [] owner target b user id = ground arith
file_set_approved_lem (d ∷ s) owner target b user id = ground (
  arith,
  file_set_approved_lem s owner target b user id,
  eq_iff d.user_id owner,
  eq_iff d.id target,
  eq_iff owner user,
  eq_iff target id,
  eq_iff d.user_id user,
  eq_iff d.id id,
)

file_none :
    (s : List DeviceRecord) (user id : String) → file_list s user ≡ [] → file_get s user id ≡ none
unfolding file_get file_list
file_none [] user id h = refl
file_none (d ∷ s) user id h = ground (arith, file_none s user id)

-- The file store serves every user id.
pub file-IsRepository : IsRepository file (λ _. Unit)
unfolding file_create file_get
file-IsRepository = record {
  get-create = λ s rec user id ho hu fresh. find_key-push row_key (user, id) s rec fresh;
  get-set_approved =
      λ s owner target b user id ho hu. file_set_approved_lem s owner target b user id;
  none_of_list = file_none;
}
