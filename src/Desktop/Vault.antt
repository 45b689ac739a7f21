-- ===== src/Desktop/Vault.antt =====
-- packages/desktop/src/core/vault-app.ts: the desktop's vault, over one encrypted blob on the disk and a
-- transport to the server, whose interfaces are in local-store.ts and sync-client.ts. Cryptography, JSON
-- and `localeCompare` are the fields of `Runtime`; the transport is a record over its own state. The ids,
-- the clock and the nonces are arguments: `encrypt` is given how many nonces were drawn before.
pub mod Reopen
mod Tests
use vault_keep.Base.{
  ℕ, zero, suc, ◌+◌, Option, none, some, Bool, true, false, not, ◌||◌, if◌then◌else◌, ◌==◌, List,
  [], ◌∷◌, ◌++◌, map, String, ◌<>◌, truthy, Thrown, ok, throw, ltb, length, or_else, get_elem?, set,
}
use vault_keep.Base.Dict.{Dict, get, put, values}

pub record VaultItem : Type 0 where
  pub id : String
  pub type : String
  pub title : String
  pub username : Option String
  pub password : Option String
  pub url : Option String
  pub notes : Option String
  pub tags : List String
  pub fields : Dict String
  pub favorite : Bool
  pub created_at : String
  pub updated_at : String

-- What `add` is given.
pub record NewItem : Type 0 where
  pub type : String
  pub title : String
  pub username : Option String
  pub password : Option String
  pub url : Option String
  pub notes : Option String
  pub tags : Option (List String)
  pub fields : Option (Dict String)
  pub favorite : Option Bool

pub record Meta : Type 0 where
  pub version : ℕ
  pub dirty : Bool

pub record PersistedState : Type 0 where
  pub items : List VaultItem
  pub meta : List (String × Meta)

pub record RemoteItem : Type 0 where
  pub id : String
  pub ciphertext : String
  pub version : ℕ
  pub updated_at : String

pub data PushOutcome : Type 0 where
  pushed_at : ℕ → PushOutcome
  conflict : ℕ → Option RemoteItem → PushOutcome

pub record Transport (T : Type 0) : Type 0 where
  pub pull : T → T × Thrown (List RemoteItem)
  pub push : T → String → String → Option ℕ → T × Thrown PushOutcome

-- The bytes of a key.
abbrev pub Key : Type 0
Key = List ℕ

pub record Runtime : Type 0 where
  pub derive_master_key : String → String → Key
  pub encrypt : Key → ℕ → String → Thrown String
  pub decrypt : Key → String → Thrown String
  pub stringify_state : PersistedState → String
  pub parse_state : String → Thrown PersistedState
  pub stringify_item : VaultItem → String
  pub parse_item : String → Thrown VaultItem
  -- `a.localeCompare(b) < 0`
  pub is_before : String → String → Bool

-- The fields of the class, the blob that the local store holds, how many nonces were drawn, and the Buffers
-- that hold keys, which the caller of `unlockWithKey` shares: `key` is the address of one.
pub record VaultApp : Type 0 where
  pub buffers : List Key
  pub key : Option ℕ
  pub items : Dict VaultItem
  pub meta : Dict Meta
  pub raw : Option String
  pub drawn : ℕ

abbrev pub is_unlocked : VaultApp → Bool
is_unlocked app = elim app.key [ none ↦ false | some at ↦ true ]

abbrev pub set_items : List VaultItem → Dict VaultItem → Dict VaultItem
set_items [] m = m
set_items (i ∷ is) m = set_items is (put i.id i m)

abbrev pub set_meta : List (String × Meta) → Dict Meta → Dict Meta
set_meta [] m = m
set_meta ((id, d) ∷ ds) m = set_meta ds (put id d m)

-- The bytes of the Buffer at an address.
abbrev pub bytes_at : VaultApp → ℕ → Key
bytes_at app at = or_else [] (get_elem? app.buffers at)

-- A new Buffer, and its address.
abbrev pub with_buffer : VaultApp → Key → VaultApp
with_buffer app bytes = record app { buffers = app.buffers ++ bytes ∷ [] }

abbrev pub next_address : VaultApp → ℕ
next_address app = length app.buffers

-- `fill(0)`
abbrev pub zeroed : Key → Key
zeroed = map λ b. 0

abbrev pub zero_fill : List Key → Option ℕ → List Key
zero_fill buffers none = buffers
zero_fill buffers (some at) = set buffers at (zeroed (or_else [] (get_elem? buffers at)))

-- The state of a run that returns or throws.
abbrev pub Result : Type 0 → Type 0
Result A = VaultApp × Thrown A

unfoldable pub require_key : VaultApp → Thrown ℕ
require_key app = elim app.key [ none ↦ throw "vault is locked" | some at ↦ ok at ]

-- `this.requireKey()` first, and the bytes that are at the key
abbrev pub with_key : {A : Type 0} → VaultApp → (Key → Result A) → Result A
with_key app f = elim (require_key app) [ ok at ↦ f (bytes_at app at) | throw e ↦ (app, throw e) ]

unfoldable pub lock : VaultApp → VaultApp
lock app = record app { buffers = zero_fill app.buffers app.key; key = none; items = []; meta = [] }

-- The address of the copy.
unfoldable pub snapshot_key : VaultApp → Result ℕ
snapshot_key app = with_key app λ bytes. (with_buffer app bytes, ok (next_address app))

unfoldable pub get_item : VaultApp → String → Thrown (Option VaultItem)
get_item app id = elim (require_key app) [ ok k ↦ ok (get id app.items) | throw e ↦ throw e ]

abbrev pub base_of : Meta → Option ℕ
base_of m = if m.version == 0 then none else some m.version

pub record SyncSummary : Type 0 where
  pub pushed : ℕ
  pub pulled : ℕ
  pub conflicts : ℕ

abbrev pub is_newer : RemoteItem → Option Meta → Bool
is_newer r none = true
is_newer r (some known) = ltb known.version r.version

abbrev pub new_item : NewItem → String → String → VaultItem
new_item partial uuid now = record {
  id = uuid;
  type = partial.type;
  title = partial.title;
  username = partial.username;
  password = partial.password;
  url = partial.url;
  notes = partial.notes;
  tags = or_else [] partial.tags;
  fields = or_else [] partial.fields;
  favorite = or_else false partial.favorite;
  created_at = now;
  updated_at = now;
}

abbrev pub state_of : VaultApp → PersistedState
state_of app = record { items = values app.items; meta = app.meta }

-- The fields with one more item, to be synced.
abbrev pub with_item : VaultApp → VaultItem → VaultApp
with_item app item = record app {
  items = put item.id item app.items;
  meta = put item.id (record { version = 0; dirty = true }) app.meta;
}

module _ (rt : Runtime) where
  -- The key that is kept is the Buffer that was passed in, not a copy.
  abbrev pub opened : VaultApp → ℕ → Thrown PersistedState → Result (Unit {0})
  opened app at (ok state) = (
    record app {
      key = some at;
      items = set_items state.items app.items;
      meta = set_meta state.meta app.meta;
    },
    ok tt,
  )
  opened app at (throw e) = (app, throw e)

  abbrev pub parsed : Thrown String → Thrown PersistedState
  parsed (ok text) = rt.parse_state text
  parsed (throw e) = throw e

  abbrev pub read_raw : VaultApp → ℕ → Option String → Result (Unit {0})
  read_raw app at none = (record app { key = some at }, ok tt)
  read_raw app at (some raw) =
      if truthy raw
      then opened app at (parsed (rt.decrypt (bytes_at app at) raw))
      else (record app { key = some at }, ok tt)

  -- The key is given by the address of its Buffer.
  unfoldable pub unlock_with_key : VaultApp → ℕ → Result (Unit {0})
  unlock_with_key app at =
      if not (length (bytes_at app at) == 32)
      then (app, throw "master key must be 32 bytes")
      else read_raw app at app.raw

  unfoldable pub unlock : VaultApp → String → String → Result (Unit {0})
  unlock app salt password =
      unlock_with_key (with_buffer app (rt.derive_master_key password salt)) (next_address app)

  abbrev pub saved : VaultApp → String → VaultApp
  saved app blob = record app { raw = some blob; drawn = suc app.drawn }

  -- `requireKey` is in its callers, which changed neither the key nor its Buffer since.
  unfoldable pub persist : VaultApp → Key → Result (Unit {0})
  persist app key = elim (rt.encrypt key app.drawn (rt.stringify_state (state_of app))) [
    | ok blob ↦ (saved app blob, ok tt)
    | throw e ↦ (app, throw e)
  ]

  -- `await this.persist(); return a`
  abbrev pub persist_then : {A : Type 0} → VaultApp → Key → A → Result A
  persist_then app key a =
      let done = persist app key in (done.0, elim done.1 [ ok u ↦ ok a | throw e ↦ throw e ])

  abbrev pub insert : VaultItem → List VaultItem → List VaultItem
  insert x [] = x ∷ []
  insert x (y ∷ ys) =
      let rest = insert x ys in if rt.is_before y.title x.title then y ∷ rest else x ∷ y ∷ ys

  -- The stable sort by titles.
  abbrev pub sort : List VaultItem → List VaultItem
  sort [] = []
  sort (x ∷ xs) = insert x (sort xs)

  unfoldable pub list : VaultApp → Thrown (List VaultItem)
  list app = elim (require_key app) [ ok k ↦ ok (sort (values app.items)) | throw e ↦ throw e ]

  unfoldable pub add : VaultApp → NewItem → String → String → Result VaultItem
  add app partial uuid now =
      let item = new_item partial uuid now in
      with_key app λ key. persist_then (with_item app item) key item

  -- `{ ...m, dirty: true }` of an item without metadata has no version; that does not come up.
  abbrev pub set_dirty : String → Option Meta → Dict Meta → Dict Meta
  set_dirty id none meta = put id (record { version = 0; dirty = true }) meta
  set_dirty id (some m) meta = put id (record m { dirty = true }) meta

  -- `patch` makes `{ ...cur, ...patch }` of the item.
  abbrev pub patched : (VaultItem → VaultItem) → String → String → VaultItem → VaultItem
  patched patch id now cur = record (patch cur) { id = id; updated_at = now }

  unfoldable pub update : VaultApp → String → (VaultItem → VaultItem) → String → Result VaultItem
  update app id patch now = with_key app λ key. elim (get id app.items) [
    | none ↦ (app, throw ("no item " <> id))
    | some cur ↦
        let next = patched patch id now cur in
        let changed = record app {
          items = put id next app.items;
          meta = set_dirty id (get id app.meta) app.meta;
        } in
        persist_then changed key next
  ]

  -- A remote copy is taken.
  abbrev pub taken : VaultApp → Key → RemoteItem → String → Result (Unit {0})
  taken app key r id = elim (rt.decrypt key r.ciphertext) [
    | throw e ↦ (app, throw e)
    | ok text ↦ elim (rt.parse_item text) [
      | throw e ↦ (app, throw e)
      | ok item ↦ (
        record app {
          items = put id item app.items;
          meta = put id (record { version = r.version; dirty = false }) app.meta;
        },
        ok tt,
      )
    ]
  ]

  module _ {T : Type 0} (transport : Transport T) where
    -- What the push of one item was answered.
    abbrev pub push_answer :
        VaultApp → Key → String → SyncSummary → Thrown PushOutcome → Result SyncSummary
    push_answer app key id sum (throw e) = (app, throw e)
    push_answer app key id sum (ok (pushed_at version)) = (
      record app { meta = put id (record { version = version; dirty = false }) app.meta },
      ok (record sum { pushed = sum.pushed + 1 }),
    )
    push_answer app key id sum (ok (conflict server_version none)) =
        (app, ok (record sum { conflicts = sum.conflicts + 1 }))
    push_answer app key id sum (ok (conflict server_version (some server))) =
        let copied = taken app key server id in
        (
          copied.0,
          elim copied.1 [
            | ok u ↦ ok (record sum { conflicts = sum.conflicts + 1 })
            | throw e ↦ throw e
          ],
        )

    -- One turn of the first loop.
    -- `JSON.stringify` of an item that is missing gives no text, which `encrypt` does not take.
    abbrev pub push_one : VaultApp → T → Key → String → Meta → SyncSummary → T × Result SyncSummary
    push_one app t key id m sum = elim (get id app.items) [
      | none ↦ (t, (app, throw "encrypt: no plaintext"))
      | some item ↦ elim (rt.encrypt key app.drawn (rt.stringify_item item)) [
        | throw e ↦ (t, (app, throw e))
        | ok blob ↦
            let answer = transport.push t id blob (base_of m) in
            (answer.0, push_answer (record app { drawn = suc app.drawn }) key id sum answer.1)
      ]
    ]

    abbrev pub if_dirty : VaultApp → T → Key → String → Meta → SyncSummary → T × Result SyncSummary
    if_dirty app t key id m sum =
        if m.dirty then push_one app t key id m sum else (t, (app, ok sum))

    -- The turns that are left of the first loop; a turn changes no entry but its own.
    unfoldable pub push_dirty :
        Key → List (String × Meta) → VaultApp → T → SyncSummary → T × Result SyncSummary
    push_dirty key [] app t sum = (t, (app, ok sum))
    push_dirty key ((id, m) ∷ rest) app t sum =
        let done = if_dirty app t key id m sum in
        elim done.1.1 [
          | throw e ↦ (done.0, (done.1.0, throw e))
          | ok sum' ↦ push_dirty key rest done.1.0 done.0 sum'
        ]

    abbrev pub merged_one : SyncSummary → Result (Unit {0}) → Result SyncSummary
    merged_one sum (app, ok u) = (app, ok (record sum { pulled = sum.pulled + 1 }))
    merged_one sum (app, throw e) = (app, throw e)

    abbrev pub merge_one : VaultApp → Key → RemoteItem → SyncSummary → Result SyncSummary
    merge_one app key r sum =
        if is_newer r (get r.id app.meta)
        then merged_one sum (taken app key r r.id)
        else (app, ok sum)

    unfoldable pub merge_remote :
        Key → List RemoteItem → VaultApp → SyncSummary → Result SyncSummary
    merge_remote key [] app sum = (app, ok sum)
    merge_remote key (r ∷ rs) app sum =
        let done = merge_one app key r sum in
        elim done.1 [ throw e ↦ (done.0, throw e) | ok sum' ↦ merge_remote key rs done.0 sum' ]

    abbrev pub persisted : Key → Result SyncSummary → Result SyncSummary
    persisted key (app, ok sum) = persist_then app key sum
    persisted key (app, throw e) = (app, throw e)

    abbrev pub pull_all :
        Key → VaultApp → SyncSummary → T × Thrown (List RemoteItem) → T × Result SyncSummary
    pull_all key app sum (t, throw e) = (t, (app, throw e))
    pull_all key app sum (t, ok remote) = (t, persisted key (merge_remote key remote app sum))

    abbrev pub pull_after : Key → T × Result SyncSummary → T × Result SyncSummary
    pull_after key (t, (app, throw e)) = (t, (app, throw e))
    pull_after key (t, (app, ok sum)) = pull_all key app sum (transport.pull t)

  -- Without a transport there is none of its state to change.
  unfoldable pub sync : {T : Type 0} → Option (Transport T) → VaultApp → T → T × Result SyncSummary
  sync none app t = (t, with_key app λ key. (app, throw "offline: no transport configured"))
  sync (some transport) app t = elim (require_key app) [
    | throw e ↦ (t, (app, throw e))
    | ok at ↦ pull_after transport (bytes_at app at) (
        push_dirty transport (bytes_at app at) app.meta app t
          (record { pushed = 0; pulled = 0; conflicts = 0 }))
  ]
