-- ===== src/Server/Conflict.antt =====
-- packages/server/src/sync/conflict.ts: what to do with a push, given the version on the server.
use vault_keep.Base.{ℕ, ◌+◌, Option, none, some, Bool, false, ◌==◌, if◌then◌else◌}

-- `null` is `none`. Versions are whole numbers.
pub record StoredVersion : Type 0 where
  pub current : Option ℕ

pub record PushAttempt : Type 0 where
  pub base_version : Option ℕ

pub data ResolveResult : Type 0 where
  create : ℕ → ResolveResult
  update : ℕ → ResolveResult
  conflict : ℕ → ResolveResult

-- `attempt.baseVersion === current`, for a current version that is no `null`
abbrev based_on : Option ℕ → ℕ → Bool
based_on none current = false
based_on (some base) current = base == current

abbrev resolve : Option ℕ → Option ℕ → ResolveResult
resolve none none = create 1
resolve none (some base) = conflict 0
resolve (some current) base =
    if based_on base current then update (current + 1) else conflict current

unfoldable pub resolve_push : StoredVersion → PushAttempt → ResolveResult
resolve_push stored attempt = resolve stored.current attempt.base_version

-- The version that a resolution writes, if it writes.
abbrev pub accepted : ResolveResult → Option ℕ
accepted (create v) = some v
accepted (update v) = some v
accepted (conflict v) = none

-- the version after `current`
abbrev pub successor : Option ℕ → ℕ
successor none = 1
successor (some current) = current + 1
