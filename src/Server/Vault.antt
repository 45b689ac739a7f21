-- ===== src/Server/Vault.antt =====
-- packages/server/src/vault: the encrypted items and the sync engine. A store is a state that the
-- operations pass on; `Date.parse` and the clock are arguments.
pub mod Stores
pub mod Push
pub mod History
pub mod Agreement
pub mod Race
mod Tests
use vault_keep.Base.{
  ℕ, zero, ◌+◌, Option, none, some, Bool, true, false, ◌&&◌, ◌||◌, not, if◌then◌else◌, ◌≡◌, List,
  String, str_eq, truthy, is_some, joined, filter, map, arith, [], ◌∷◌,
}
use vault_keep.Base.Int.{ℤ, ltb_ℤ}
use vault_keep.Server.Conflict.{
  ResolveResult, create, update, conflict, resolve_push, StoredVersion, PushAttempt,
}

pub record StoredItem : Type 0 where
  pub id : String
  pub user_id : String
  pub ciphertext : String
  pub version : ℕ
  pub updated_at : String

-- `-Infinity`, the number of a date, or NaN
pub data Cutoff : Type 0 where
  always : Cutoff
  after : ℤ → Cutoff
  never : Cutoff

abbrev cutoff_of : Option ℤ → Cutoff
cutoff_of none = never
cutoff_of (some t) = after t

-- `since ? Date.parse(since) : -Infinity`, where `parse` is `Date.parse` with `none` for NaN
abbrev cutoff : (String → Option ℤ) → Option String → Cutoff
cutoff parse none = always
cutoff parse (some since) = if truthy since then cutoff_of (parse since) else always

-- `Date.parse(updatedAt) > cutoff`, false where either side is NaN
abbrev is_after : Option ℤ → Cutoff → Bool
is_after none c = false
is_after (some t) always = true
is_after (some t) (after since) = ltb_ℤ since t
is_after (some t) never = false

-- the test by which both stores list
unfoldable pub listed : (String → Option ℤ) → String → Option String → StoredItem → Bool
unfolding ltb_ℤ
listed parse user since i =
    str_eq i.user_id user && is_after (parse i.updated_at) (cutoff parse since)

pub record VaultRepository (S : Type 0) : Type 0 where
  pub list_since : S → String → Option String → List StoredItem
  pub get : S → String → String → Option StoredItem
  pub put : S → StoredItem → S
  pub remove : S → String → String → S

pub record PushRequest : Type 0 where
  pub id : String
  pub ciphertext : String
  pub base_version : Option ℕ

pub data PushResponse : Type 0 where
  accepted : ℕ → PushResponse
  conflicting : ℕ → Option StoredItem → PushResponse

-- `existing?.version ?? null`
abbrev pub version_of : Option StoredItem → Option ℕ
version_of none = none
version_of (some i) = some i.version

abbrev pub new_item : String → PushRequest → ℕ → String → StoredItem
new_item user req version now = record {
  id = req.id;
  user_id = user;
  ciphertext = req.ciphertext;
  version = version;
  updated_at = now;
}

module _ {S : Type 0} (repo : VaultRepository S) where
  unfoldable pub pull : S → String → Option String → List StoredItem
  pull s user since = repo.list_since s user since

  -- What follows the first `await`: the decision on the item that was read, and the write.
  unfoldable pub finish_push :
      Option StoredItem → S → String → PushRequest → String → S × PushResponse
  unfolding resolve_push
  finish_push existing s user req now =
      let decision =
        resolve_push (record { current = version_of existing })
          (record { base_version = req.base_version }) in
      elim decision [
        | conflict v ↦ (s, conflicting v existing)
        | create v ↦ (repo.put s (new_item user req v now), accepted v)
        | update v ↦ (repo.put s (new_item user req v now), accepted v)
      ]

  unfoldable pub push : S → String → PushRequest → String → S × PushResponse
  unfolding finish_push
  push s user req now = finish_push (repo.get s user req.id) s user req now

  unfoldable pub delete : S → String → String → S
  delete s user id = repo.remove s user id

-- A request of an authenticated user, as the routes of main.ts pass it on; the push carries the
-- time at which its item is stamped.
pub data Request : Type 0 where
  pulling : String → Option String → Request
  pushing : String → PushRequest → String → Request
  deleting : String → String → Request

pub data Reply : Type 0 where
  items : List StoredItem → Reply
  pushed : PushResponse → Reply
  deleted : Reply

abbrev pub requester : Request → String
requester (pulling user since) = user
requester (pushing user req now) = user
requester (deleting user id) = user

module _ {S : Type 0} (repo : VaultRepository S) where
  unfoldable pub serve : S → Request → S × Reply
  unfolding pull push delete
  serve s (pulling user since) = (s, items (pull repo s user since))
  serve s (pushing user req now) = let (s', r) = push repo s user req now in (s', pushed r)
  serve s (deleting user id) = (delete repo s user id, deleted)

  unfoldable pub serve_all : S → List Request → S × List Reply
  serve_all s [] = (s, [])
  serve_all s (c ∷ cs) =
      let (s', r) = serve s c in let (final, rs) = serve_all s' cs in (final, r ∷ rs)
