-- ===== src/Server/Vault/Race.antt =====
-- Two pushes of one item that overlap. `push` awaits the read before it decides and writes, so
-- another handler may run between the two; no store makes them one transaction.
use vault_keep.Base.{◌≡◌, ◌∙◌, ap, sym, String, some, arith, eq_iff}
use vault_keep.Server.Conflict.{successor}
use vault_keep.Server.Vault.{
  VaultRepository, PushRequest, PushResponse, accepted, version_of, new_item, finish_push,
}
use vault_keep.Server.Vault.Stores.{IsRepository}
use vault_keep.Server.Vault.Push.{IsCurrent, finish_push-current, written}

-- Both handlers read; then the first decides and writes, and then the second.
unfoldable pub overlapping :
    {S : Type 0}
    → VaultRepository S
    → S
    → String
    → PushRequest
    → PushRequest
    → String
    → String
    → S × PushResponse × PushResponse
overlapping repo s user first second now later =
    let read_by_first = repo.get s user first.id in
    let read_by_second = repo.get s user second.id in
    let (s', reply) = finish_push repo read_by_first s user first now in
    let (s'', reply') = finish_push repo read_by_second s' user second later in (s'', reply, reply')

module _ {S : Type 0} {UserId : String → Type 0} (repo : VaultRepository S)
    (laws : IsRepository repo UserId) (s : S) (user : String) (valid : UserId user)
    (first second : PushRequest) (now later : String) where
  -- Two overlapping pushes of one item from its current version are both accepted, at one version,
  -- and the item that the first wrote is lost: the store holds the second's.
  pub overlapping-lost_update :
      first.id ≡ second.id
      → IsCurrent (repo.get s user first.id) first
      → first.base_version ≡ second.base_version
      → ((overlapping repo s user first second now later).1
          ≡ accepted (successor (version_of (repo.get s user first.id))))
        × ((overlapping repo s user first second now later).2
            ≡ accepted (successor (version_of (repo.get s user first.id))))
        × (repo.get (overlapping repo s user first second now later).0 user first.id
            ≡ some (new_item user second (successor (version_of (repo.get s user first.id))) later))
  unfolding overlapping
  overlapping-lost_update same current base =
      let e = repo.get s user first.id in
      let before : repo.get s user second.id ≡ e = ap (repo.get s user) (sym same) in
      let one = finish_push-current repo e s user first now current in
      let two : (t : S)
          → finish_push repo (repo.get s user second.id) t user second later
            ≡ (repo.put t (written e user second later), accepted (successor (version_of e))) =
        λ t. rw before (finish_push-current repo e t user second later (sym base ∙ current)) in
      (
        ap (λ p. p.1) one,
        ap (λ p. p.1) (two (finish_push repo e s user first now).0),
        ap (λ p. repo.get p.0 user first.id) (two (finish_push repo e s user first now).0)
            ∙ laws.get-put (finish_push repo e s user first now).0 (written e user second later)
                user first.id valid valid
            ∙ ground (arith, eq_iff user user, eq_iff second.id first.id),
      )
