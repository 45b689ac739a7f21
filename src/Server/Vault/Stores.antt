-- ===== src/Server/Vault/Stores.antt =====
-- The two stores of encrypted items: `InMemoryVaultRepository` of vault.repository.ts, a `Map` whose
-- keys are `${userId}:${id}`, and `FileVaultRepository` of store/filedb.ts, an array. Writing the
-- file is not modelled: the array is what `db.raw.vault` holds.
use vault_keep.Base.{
  Option, ◌&&◌, if◌then◌else◌, ◌≡◌, List, String, str_eq, joined, joined_eq, NoColon, filter, ap,
  ◌∙◌, some, none,
}
use vault_keep.Base.Int.{ℤ}
use vault_keep.Base.Dict
use vault_keep.Base.Dict.{Dict, dict_laws, get-put, get-delete}
use vault_keep.Base.Keyed.{find_key, upsert, without, find_key-upsert, find_key-without, pair_eq}
use vault_keep.Server.Vault.{StoredItem, VaultRepository, listed}

unfoldable pub mem_list :
    (String → Option ℤ) → Dict StoredItem → String → Option String → List StoredItem
unfolding listed
mem_list parse s user since = filter (listed parse user since) (Dict.values s)

unfoldable pub mem_get : Dict StoredItem → String → String → Option StoredItem
mem_get s user id = Dict.get (joined user id) s

unfoldable pub mem_put : Dict StoredItem → StoredItem → Dict StoredItem
mem_put s item = Dict.put (joined item.user_id item.id) item s

unfoldable pub mem_remove : Dict StoredItem → String → String → Dict StoredItem
mem_remove s user id = Dict.delete (joined user id) s

abbrev pub in_memory : (String → Option ℤ) → VaultRepository (Dict StoredItem)
in_memory parse = record {
  list_since = mem_list parse;
  get = mem_get;
  put = mem_put;
  remove = mem_remove;
}

-- the key by which the file store finds a row
abbrev pub row_key : StoredItem → String × String
row_key i = (i.user_id, i.id)

unfoldable pub file_list :
    (String → Option ℤ) → List StoredItem → String → Option String → List StoredItem
file_list parse s user since = filter (listed parse user since) s

unfoldable pub file_get : List StoredItem → String → String → Option StoredItem
file_get s user id = find_key row_key (user, id) s

unfoldable pub file_put : List StoredItem → StoredItem → List StoredItem
file_put s item = upsert row_key item s

unfoldable pub file_remove : List StoredItem → String → String → List StoredItem
file_remove s user id = without row_key (user, id) s

abbrev pub file : (String → Option ℤ) → VaultRepository (List StoredItem)
file parse = record {
  list_since = file_list parse;
  get = file_get;
  put = file_put;
  remove = file_remove;
}

-- What the service relies on. `UserId` holds of the user ids that the store tells apart.
pub record IsRepository {S : Type 0} (repo : VaultRepository S) (UserId : String → Type 0)
    : Type 0 where
  pub get-put :
      (s : S) (item : StoredItem) (user id : String)
      → UserId item.user_id
      → UserId user
      → repo.get (repo.put s item) user id
        ≡ (if str_eq item.user_id user && str_eq item.id id then some item else repo.get s user id)
  pub get-remove :
      (s : S) (owner gone user id : String)
      → UserId owner
      → UserId user
      → repo.get (repo.remove s owner gone) user id
        ≡ (if str_eq owner user && str_eq gone id then none else repo.get s user id)

-- The in-memory store serves user ids with no colon, which UUIDs are.
pub in_memory-IsRepository : (parse : String → Option ℤ) → IsRepository (in_memory parse) NoColon
unfolding mem_get mem_put mem_remove
in_memory-IsRepository parse = record {
  get-put = λ s item user id ho hu.
      get-put (joined item.user_id item.id) (joined user id) item s
      ∙ ap (λ b. if b then some item else mem_get s user id)
          (joined_eq item.user_id user item.id id ho hu);
  get-remove = λ s owner gone user id ho hu.
      get-delete (joined owner gone) (joined user id) s
      ∙ ap (λ b. if b then none else mem_get s user id) (joined_eq owner user gone id ho hu);
}

-- The file store serves every user id.
pub file-IsRepository : (parse : String → Option ℤ) → IsRepository (file parse) (λ _. Unit)
unfolding file_get file_put file_remove
file-IsRepository parse = record {
  get-put = λ s item user id ho hu. find_key-upsert row_key (user, id) item s;
  get-remove = λ s owner gone user id ho hu. find_key-without row_key (user, id) (owner, gone) s;
}
