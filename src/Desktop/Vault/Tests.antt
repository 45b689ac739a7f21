-- ===== src/Desktop/Vault/Tests.antt =====
-- A vault with one item, under a cipher that tells two keys apart.
use Prim.Native.Char.{Char, code}
use vault_keep.Base.{
  ℕ, suc, none, some, false, if◌then◌else◌, ◌==◌, List, [], ◌∷◌, String, Thrown, ok, throw, ◌≡◌,
  refl, length, str_eq,
}
use vault_keep.Base.Dict.{get, put}
use vault_keep.Desktop.Vault.{
  NewItem, PersistedState, conflict, Transport, Key, Runtime, VaultApp, lock, new_item, with_item,
  state_of, add, sync, push_dirty, merge_remote, persist, require_key, SyncSummary, Result, zeroed,
  snapshot_key,
}

abbrev tag : Key → Char
tag [] = "a"
tag (n ∷ ns) = if n == 1 then "b" else "c"

abbrev opened_by : Key → String → Thrown String
opened_by key String.[] = throw "empty"
opened_by key (String.◌∷◌ c text) =
    if code c == code (tag key) then ok text else throw "unsupported state"

abbrev zeros : List ℕ
zeros =
    0 ∷ 0 ∷ 0 ∷ 0 ∷ 0 ∷ 0 ∷ 0 ∷ 0 ∷ 0 ∷ 0 ∷ 0 ∷ 0 ∷ 0 ∷ 0 ∷ 0 ∷ 0 ∷ 0 ∷ 0 ∷ 0 ∷ 0 ∷ 0 ∷ 0 ∷ 0 ∷ 0
    ∷ 0 ∷ 0 ∷ 0 ∷ 0 ∷ 0 ∷ 0 ∷ 0 ∷ []

abbrev mail : NewItem
mail = record {
  type = "login";
  title = "Mail";
  username = some "ann";
  password = some "pw";
  url = none;
  notes = none;
  tags = none;
  fields = none;
  favorite = none;
}

-- 32 bytes
abbrev right : Key
right = 1 ∷ zeros

abbrev left : Key
left = 2 ∷ zeros

-- The key is the second of two Buffers.
abbrev empty_vault : VaultApp
empty_vault = record {
  buffers = left ∷ right ∷ [];
  key = some 1;
  items = [];
  meta = [];
  raw = none;
  drawn = 0;
}

abbrev written : PersistedState
written = state_of (with_item empty_vault (new_item mail "u1" "now"))

abbrev toy : Runtime
toy = record {
  derive_master_key = λ password salt. if str_eq password "pass" then right else left;
  encrypt = λ key n text.
      if length key == 32
      then ok (String.◌∷◌ (tag key) text)
      else throw "AES-256 requires a 32-byte key";
  decrypt = opened_by;
  stringify_state = λ state. "state";
  parse_state = λ text. ok written;
  stringify_item = λ item. item.id;
  parse_item = λ text. ok (new_item mail text "later");
  is_before = λ a b. false;
}

-- The Buffer that was passed to `unlockWithKey` holds zeros after `lock`, and the other one does not.
abbrev closed : VaultApp
closed = lock (add toy empty_vault mail "u1" "now").0

lock_zeroes : closed.buffers ≡ left ∷ zeroed right ∷ []
unfolding lock add persist require_key
lock_zeroes = refl

-- What the copy holds is not zeroed.
snapshot_is_kept : (lock (snapshot_key empty_vault).0).buffers ≡ left ∷ zeroed right ∷ right ∷ []
unfolding lock snapshot_key require_key
snapshot_is_kept = refl

-- A server on which the item is at version 3 already.
abbrev ahead : Transport ℕ
ahead = record {
  pull = λ t. (t, ok (record { id = "u2"; ciphertext = "bu2"; version = 1; updated_at = "" } ∷ []));
  push = λ t id blob base. (
    suc t,
    ok (conflict 3 (some (record { id = id; ciphertext = blob; version = 3; updated_at = "" }))),
  );
}

abbrev synced : ℕ × Result SyncSummary
synced = sync toy (some ahead) (add toy empty_vault mail "u1" "now").0 0

summary : synced.1.1 ≡ ok (record { pushed = 0; pulled = 1; conflicts = 1 })
unfolding sync push_dirty merge_remote require_key add persist get put
summary = refl
