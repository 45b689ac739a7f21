-- ===== src/Server/Mfa/Stores.antt =====
-- The two stores of MFA records: `InMemoryMfaRepository` of mfa.service.ts, a `Map` by user id, and
-- `FileMfaRepository` of store/filedb.ts, an array of rows. Writing the file is not modelled.
use vault_keep.Base.{Option, some, if◌then◌else◌, ◌≡◌, List, String, str_eq}
use vault_keep.Base.Dict
use vault_keep.Base.Dict.{Dict, get-put}
use vault_keep.Base.Keyed.{find_key, upsert, find_key-upsert, string_eq}
use vault_keep.Server.Mfa.{MfaRecord, MfaRepository}

unfoldable pub mem_get : Dict MfaRecord → String → Option MfaRecord
mem_get s user = Dict.get user s

unfoldable pub mem_upsert : Dict MfaRecord → MfaRecord → Dict MfaRecord
mem_upsert s rec = Dict.put rec.user_id rec s

abbrev pub in_memory : MfaRepository (Dict MfaRecord)
in_memory = record { get = mem_get; upsert = mem_upsert }

abbrev pub owner : MfaRecord → String
owner rec = rec.user_id

unfoldable pub file_get : List MfaRecord → String → Option MfaRecord
file_get s user = find_key owner user s

unfoldable pub file_upsert : List MfaRecord → MfaRecord → List MfaRecord
file_upsert s rec = upsert owner rec s

abbrev pub file : MfaRepository (List MfaRecord)
file = record { get = file_get; upsert = file_upsert }

-- What the service relies on.
pub record IsRepository {S : Type 0} (repo : MfaRepository S) : Type 0 where
  pub get-upsert :
      (s : S) (rec : MfaRecord) (user : String)
      → repo.get (repo.upsert s rec) user
        ≡ (if str_eq rec.user_id user then some rec else repo.get s user)

pub in_memory-IsRepository : IsRepository in_memory
unfolding mem_get mem_upsert
in_memory-IsRepository = record { get-upsert = λ s rec user. get-put rec.user_id user rec s }

pub file-IsRepository : IsRepository file
unfolding file_get file_upsert
file-IsRepository = record { get-upsert = λ s rec user. find_key-upsert owner user rec s }
