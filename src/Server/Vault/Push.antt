-- ===== src/Server/Vault/Push.antt =====
-- What a push does, over any store that keeps the repository's laws.
use vault_keep.Base.{
  ℕ, Option, none, some, ◌&&◌, if◌then◌else◌, ◌≡◌, String, str_eq, eq_iff, arith, ap, sym, ◌∙◌,
}
use native.Mathlib.Decide.{ℕ_discrete}
use vault_keep.Server.Conflict.{successor}
use vault_keep.Server.Vault.{
  StoredItem, VaultRepository, PushRequest, accepted, conflicting, version_of, new_item,
  finish_push, push,
}
use vault_keep.Server.Vault.Stores.{IsRepository}

-- The push was based on what the store holds: nothing on both sides, or the stored version.
abbrev pub IsCurrent : Option StoredItem → PushRequest → Type 0
IsCurrent existing req = req.base_version ≡ version_of existing

-- the item that an accepted push writes
abbrev pub written : Option StoredItem → String → PushRequest → String → StoredItem
written existing user req now = new_item user req (successor (version_of existing)) now

-- the version that a conflict reports: that of the server's copy, 0 where it has none
abbrev pub reported : Option StoredItem → ℕ
reported none = 0
reported (some i) = i.version

option_discrete : Discrete (Option ℕ)
option_discrete = hlevel ℕ_discrete

-- Whether a push is current can be decided.
pub IsCurrent-dec :
    (existing : Option StoredItem) (req : PushRequest) → Dec (IsCurrent existing req)
IsCurrent-dec existing req = option_discrete req.base_version (version_of existing)

successor-ne : (o : Option ℕ) → o ≡ some (successor o) → ⊥
successor-ne o h = ground arith

module _ {S : Type 0} (repo : VaultRepository S) where
  -- The two branches of `finish_push`, by the test that the header of conflict.ts describes.
  pub finish_push-current :
      (existing : Option StoredItem) (s : S) (user : String) (req : PushRequest) (now : String)
      → IsCurrent existing req
      → finish_push repo existing s user req now
        ≡ (repo.put s (written existing user req now), accepted (successor (version_of existing)))
  unfolding finish_push
  finish_push-current none s user req now h = ground arith
  finish_push-current (some i) s user req now h = ground arith

  pub finish_push-stale :
      (existing : Option StoredItem) (s : S) (user : String) (req : PushRequest) (now : String)
      → ¬ IsCurrent existing req
      → finish_push repo existing s user req now ≡ (s, conflicting (reported existing) existing)
  unfolding finish_push
  finish_push-stale none s user req now h = ground arith
  finish_push-stale (some i) s user req now h = ground arith

  -- An accepted push was based on what the store held, and wrote the next version.
  pub finish_push-accepted :
      (existing : Option StoredItem) (s : S) (user : String) (req : PushRequest) (now : String)
      {v : ℕ}
      → (finish_push repo existing s user req now).1 ≡ accepted v
      → IsCurrent existing req
        × (successor (version_of existing) ≡ v)
        × ((finish_push repo existing s user req now).0 ≡ repo.put s (new_item user req v now))
  unfolding finish_push
  finish_push-accepted none s user req now h = ground arith
  finish_push-accepted (some i) s user req now h = ground arith

module _ {S : Type 0} {UserId : String → Type 0} (repo : VaultRepository S)
    (laws : IsRepository repo UserId) (s : S) (user : String) (valid : UserId user) where
  -- A push that is based on what the server holds is accepted at the next version: afterwards its
  -- item is stored, and every other item of every user is as it was. Any other push changes nothing
  -- and is answered with the server's version and copy.
  pub push_lem :
      (req : PushRequest) (now : String)
      → (IsCurrent (repo.get s user req.id) req
          → ((push repo s user req now).1
              ≡ accepted (successor (version_of (repo.get s user req.id))))
            × ((u i : String)
                → UserId u
                → repo.get (push repo s user req now).0 u i ≡ (
                    if str_eq user u && str_eq req.id i
                    then some (written (repo.get s user req.id) user req now)
                    else repo.get s u i)))
        × (¬ IsCurrent (repo.get s user req.id) req
            → push repo s user req now
              ≡ (s, conflicting (reported (repo.get s user req.id)) (repo.get s user req.id)))
  unfolding push
  push_lem req now = (
    λ h.
        let e = finish_push-current repo (repo.get s user req.id) s user req now h in
        (
          ap (λ p. p.1) e,
          λ u i v.
              ap (λ p. repo.get p.0 u i) e
              ∙ laws.get-put s (written (repo.get s user req.id) user req now) u i valid v,
        ),
    λ h. finish_push-stale repo (repo.get s user req.id) s user req now h,
  )

  -- After a push was accepted, no second push of the item from the same base is accepted: it is
  -- answered with the first one's item, and changes nothing.
  pub push-stale_conflicts :
      (first second : PushRequest) (now later : String) {v : ℕ}
      → first.id ≡ second.id
      → first.base_version ≡ second.base_version
      → (push repo s user first now).1 ≡ accepted v
      → push repo (push repo s user first now).0 user second later
        ≡ ((push repo s user first now).0, conflicting v (some (new_item user first v now)))
  unfolding push
  push-stale_conflicts first second now later {v} same base ok =
      let (current, next, state) =
        finish_push-accepted repo (repo.get s user first.id) s user first now ok in
      let stored : repo.get (push repo s user first now).0 user second.id
          ≡ some (new_item user first v now) =
        ap (λ t. repo.get t user second.id) state
        ∙ laws.get-put s (new_item user first v now) user second.id valid valid
        ∙ ground (arith, eq_iff user user, eq_iff first.id second.id) in
      rw stored (
        finish_push-stale repo (some (new_item user first v now)) (push repo s user first now).0
          user second later
          (λ again.
            successor-ne (version_of (repo.get s user first.id))
              (sym current ∙ base ∙ again ∙ ap some (sym next))))
