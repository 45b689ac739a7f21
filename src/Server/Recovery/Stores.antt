-- ===== src/Server/Recovery/Stores.antt =====
-- `FileRecoveryRepository` of packages/server/src/store/filedb.ts: two arrays of rows. Writing the
-- file is not modelled.
use vault_keep.Base.{
  Option, none, some, if◌then◌else◌, ◌≡◌, List, [], ◌∷◌, ◌++◌, String, str_eq, filter,
}
use vault_keep.Base.Keyed.{
  find_key, find_key-push, find_key-key, find_key-upsert, find_key-replace_row, upsert, replace_row,
  string_eq,
}
use vault_keep.Server.Recovery.{RecoveryRecord, Contact, RecoveryRepository}

pub record FileRows : Type 0 where
  pub recoveries : List RecoveryRecord
  pub contacts : List Contact

abbrev recovery_key : RecoveryRecord → String
recovery_key r = r.user_id

abbrev contact_key : Contact → String
contact_key c = c.id

unfoldable pub file_get_recovery : FileRows → String → Option RecoveryRecord
file_get_recovery s user = find_key recovery_key user s.recoveries

unfoldable pub file_upsert_recovery : FileRows → RecoveryRecord → FileRows
file_upsert_recovery s rec = record s { recoveries = upsert recovery_key rec s.recoveries }

unfoldable pub file_list_contacts : FileRows → String → List Contact
file_list_contacts s user = filter (λ c. str_eq c.user_id user) s.contacts

unfoldable pub file_get_contact : FileRows → String → Option Contact
file_get_contact s id = find_key contact_key id s.contacts

unfoldable pub file_create_contact : FileRows → Contact → FileRows
file_create_contact s rec = record s { contacts = s.contacts ++ rec ∷ [] }

unfoldable pub file_update_contact : FileRows → Contact → FileRows
file_update_contact s rec = record s { contacts = replace_row contact_key rec s.contacts }

abbrev pub file : RecoveryRepository FileRows
file = record {
  get_recovery = file_get_recovery;
  upsert_recovery = file_upsert_recovery;
  list_contacts = file_list_contacts;
  get_contact = file_get_contact;
  create_contact = file_create_contact;
  update_contact = file_update_contact;
}

-- What the service relies on.
pub record IsRepository {S : Type 0} (repo : RecoveryRepository S) : Type 0 where
  pub get_recovery-upsert_recovery :
      (s : S) (rec : RecoveryRecord) (user : String)
      → repo.get_recovery (repo.upsert_recovery s rec) user
        ≡ (if str_eq rec.user_id user then some rec else repo.get_recovery s user)
  pub get_contact-create_contact :
      (s : S) (rec : Contact) (id : String)
      → repo.get_contact s rec.id ≡ none
      → repo.get_contact (repo.create_contact s rec) id
        ≡ (if str_eq rec.id id then some rec else repo.get_contact s id)
  pub get_contact-update_contact :
      (s : S) (rec : Contact) (id : String) {old : Contact}
      → repo.get_contact s rec.id ≡ some old
      → repo.get_contact (repo.update_contact s rec) id
        ≡ (if str_eq rec.id id then some rec else repo.get_contact s id)
  pub get_contact-id :
      (s : S) (id : String) {c : Contact} → repo.get_contact s id ≡ some c → c.id ≡ id

pub file-IsRepository : IsRepository file
unfolding file_get_recovery file_upsert_recovery file_get_contact file_create_contact
    file_update_contact
file-IsRepository = record {
  get_recovery-upsert_recovery = λ s rec user. find_key-upsert recovery_key user rec s.recoveries;
  get_contact-create_contact = λ s rec id fresh. find_key-push contact_key id s.contacts rec fresh;
  get_contact-update_contact =
      λ s rec id found. find_key-replace_row contact_key id rec s.contacts found;
  get_contact-id = λ s id found. find_key-key contact_key id s.contacts found;
}
