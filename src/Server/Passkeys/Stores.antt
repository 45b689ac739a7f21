-- ===== src/Server/Passkeys/Stores.antt =====
-- `InMemoryPasskeyRepository` of packages/server/src/auth/passkey.service.ts, a `Map` by credential id,
-- and `FilePasskeyRepository` of packages/server/src/store/filedb.ts, an array of rows. A record that a
-- store gives out is changed in place only by the store.
use vault_keep.Base.{
  ℕ, Option, none, some, Bool, if◌then◌else◌, ◌≡◌, refl, List, [], ◌∷◌, ◌++◌, String, str_eq,
  eq_iff, filter, arith,
}
use vault_keep.Base.Dict
use vault_keep.Base.Dict.{Dict, get-put, values}
use vault_keep.Base.Keyed.{find_key, find_key-push, string_eq}
use vault_keep.Server.Passkeys.{PasskeyRecord, PasskeyRepository}

abbrev pub owned : String → PasskeyRecord → Bool
owned user c = str_eq c.user_id user

abbrev pub counted : ℕ → PasskeyRecord → PasskeyRecord
counted n c = record c { sign_count = n }

unfoldable pub mem_list : Dict PasskeyRecord → String → List PasskeyRecord
mem_list s user = filter (owned user) (values s)

unfoldable pub mem_get : Dict PasskeyRecord → String → Option PasskeyRecord
mem_get s id = Dict.get id s

unfoldable pub mem_create : Dict PasskeyRecord → PasskeyRecord → Dict PasskeyRecord
mem_create s rec = Dict.put rec.credential_id rec s

-- the record in the map is changed in place
unfoldable pub mem_update : Dict PasskeyRecord → String → ℕ → Dict PasskeyRecord
mem_update s id n = elim (Dict.get id s) [ none ↦ s | some c ↦ Dict.put id (counted n c) s ]

abbrev pub in_memory : PasskeyRepository (Dict PasskeyRecord)
in_memory = record {
  list_for_user = mem_list;
  get = mem_get;
  create = mem_create;
  update_sign_count = mem_update;
}

abbrev pub row_key : PasskeyRecord → String
row_key c = c.credential_id

unfoldable pub file_list : List PasskeyRecord → String → List PasskeyRecord
file_list s user = filter (owned user) s

unfoldable pub file_get : List PasskeyRecord → String → Option PasskeyRecord
file_get s id = find_key row_key id s

unfoldable pub file_create : List PasskeyRecord → PasskeyRecord → List PasskeyRecord
file_create s rec = s ++ rec ∷ []

-- the row that `find` returns is changed in place
unfoldable pub file_update : List PasskeyRecord → String → ℕ → List PasskeyRecord
file_update [] id n = []
file_update (c ∷ s) id n =
    if str_eq c.credential_id id then counted n c ∷ s else c ∷ file_update s id n

abbrev pub file : PasskeyRepository (List PasskeyRecord)
file = record {
  list_for_user = file_list;
  get = file_get;
  create = file_create;
  update_sign_count = file_update;
}

abbrev pub count_to : ℕ → Option PasskeyRecord → Option PasskeyRecord
count_to n none = none
count_to n (some c) = some (counted n c)

-- What the service relies on.
pub record IsRepository {S : Type 0} (repo : PasskeyRepository S) : Type 0 where
  pub get-create :
      (s : S) (rec : PasskeyRecord) (id : String)
      → repo.get s rec.credential_id ≡ none
      → repo.get (repo.create s rec) id
        ≡ (if str_eq rec.credential_id id then some rec else repo.get s id)
  pub get-update_sign_count :
      (s : S) (id : String) (n : ℕ) (j : String)
      → repo.get (repo.update_sign_count s id n) j
        ≡ (if str_eq id j then count_to n (repo.get s j) else repo.get s j)

mem_update_as :
    (s : Dict PasskeyRecord) (id : String) (n : ℕ) (j : String) (found : Option PasskeyRecord)
    → Dict.get id s ≡ found
    → Dict.get j (elim found [ none ↦ s | some c ↦ Dict.put id (counted n c) s ])
      ≡ (if str_eq id j then count_to n (Dict.get j s) else Dict.get j s)
mem_update_as s id n j none h = ground (arith, eq_iff id j)
mem_update_as s id n j (some c) h = ground (arith, eq_iff id j, get-put id j (counted n c) s)

mem_update_lem :
    (s : Dict PasskeyRecord) (id : String) (n : ℕ) (j : String)
    → mem_get (mem_update s id n) j
      ≡ (if str_eq id j then count_to n (mem_get s j) else mem_get s j)
unfolding mem_get mem_update
mem_update_lem s id n j = mem_update_as s id n j (Dict.get id s) refl

file_update_lem :
    (s : List PasskeyRecord) (id : String) (n : ℕ) (j : String)
    → file_get (file_update s id n) j
      ≡ (if str_eq id j then count_to n (file_get s j) else file_get s j)
unfolding file_get file_update
file_update_lem [] id n j = ground arith
file_update_lem (c ∷ s) id n j = ground (
  arith,
  file_update_lem s id n j,
  eq_iff c.credential_id id,
  eq_iff id j,
  eq_iff c.credential_id j,
)

pub in_memory-IsRepository : IsRepository in_memory
unfolding mem_get mem_create
in_memory-IsRepository = record {
  get-create = λ s rec id fresh. get-put rec.credential_id id rec s;
  get-update_sign_count = mem_update_lem;
}

pub file-IsRepository : IsRepository file
unfolding file_get file_create
file-IsRepository = record {
  get-create = λ s rec id fresh. find_key-push row_key id s rec fresh;
  get-update_sign_count = file_update_lem;
}
