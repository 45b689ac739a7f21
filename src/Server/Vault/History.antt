-- ===== src/Server/Vault/History.antt =====
-- What a sequence of requests, of any users, can do to the stored items.
use vault_keep.Base.{
  same_key, other_key, ◌≤◌, some, ◌&&◌, ◌≡◌, ◌≢◌, ◌⊎◌, inl, inr, String, str_eq, arith, Bool-cases,
  refl, ap, ◌∙◌, List, [], ◌∷◌, All,
}
use vault_keep.Server.Vault.{
  StoredItem, VaultRepository, PushRequest, push, delete, Request, pulling, pushing, deleting,
  requester, serve, serve_all,
}
use vault_keep.Server.Vault.Stores.{IsRepository}
use vault_keep.Server.Vault.Push.{push_lem, IsCurrent-dec, written}

-- The request does not delete the item.
abbrev pub Spares : String → String → Request → Type 0
Spares u i (deleting user id) = (user ≢ u) ⊎ (id ≢ i)
Spares u i _ = Unit

-- `y` is `x`, or has a later version.
abbrev pub Succeeds : StoredItem → StoredItem → Type 0
Succeeds x y = (x.version ≤ y.version) × (x.version ≡ y.version → x ≡ y)

Succeeds-refl : (x : StoredItem) → Succeeds x x
Succeeds-refl x = (omega arith, λ e. refl)

Succeeds-trans : (x y z : StoredItem) → Succeeds x y → Succeeds y z → Succeeds x z
Succeeds-trans x y z (a, f) (b, g) = (omega arith, λ e. f (omega arith) ∙ g (omega arith))

written-Succeeds :
    (x : StoredItem) (u : String) (req : PushRequest) (now : String)
    → Succeeds x (written (some x) u req now)
written-Succeeds x u req now = (omega arith, λ e. absurd (omega arith))

module _ {S : Type 0} {UserId : String → Type 0} (repo : VaultRepository S)
    (laws : IsRepository repo UserId) where
  -- What a push leaves under a key: the item that was there, or its successor.
  get-push :
      (s : S) (user : String) (req : PushRequest) (now u i : String)
      → UserId user
      → UserId u
      → (repo.get (push repo s user req now).0 u i ≡ repo.get s u i)
        ⊎ ((user ≡ u)
            × (req.id ≡ i)
            × (repo.get (push repo s user req now).0 u i
                ≡ some (written (repo.get s u i) u req now)))
  get-push s user req now u i hv hu =
      let (fresh, stale) = push_lem repo laws s user hv req now in
      elim (IsCurrent-dec (repo.get s user req.id) req) [
        | yes h ↦ elim (Bool-cases (str_eq user u && str_eq req.id i)) [
          | inl same ↦
              let (p, q) = same_key user u req.id i same in
              inr (
                p,
                q,
                (fresh h).1 u i hu ∙ rw same (ap (λ (w : StoredItem). some w) (written-cong p q)),
              )
          | inr other ↦ inl ((fresh h).1 u i hu ∙ rw other)
        ]
        | no h ↦ inl (ap (λ p. repo.get p.0 u i) (stale h))
      ]
    where
      written-cong :
          user ≡ u
          → req.id ≡ i
          → written (repo.get s user req.id) user req now ≡ written (repo.get s u i) u req now
      written-cong p q = cc

  -- One request leaves an item that it does not delete, or puts its successor there.
  serve-Succeeds :
      (s : S) (c : Request) (u i : String) (x : StoredItem)
      → UserId (requester c)
      → UserId u
      → Spares u i c
      → repo.get s u i ≡ some x
      → (y : StoredItem) × (repo.get (serve repo s c).0 u i ≡ some y) × Succeeds x y
  unfolding serve delete
  serve-Succeeds s (pulling user since) u i x hv hu spares e = (x, e, Succeeds-refl x)
  serve-Succeeds s (pushing user req now) u i x hv hu spares e =
      elim (get-push s user req now u i hv hu) [
        | inl same ↦ (x, same ∙ e, Succeeds-refl x)
        | inr (p, q, new) ↦ (
          written (some x) u req now,
          new ∙ ap (λ o. some (written o u req now)) e,
          written-Succeeds x u req now,
        )
      ]
  serve-Succeeds s (deleting user id) u i x hv hu spares e = (
    x,
    laws.get-remove s user id u i hv hu ∙ rw (other_key user u id i spares) e,
    Succeeds-refl x,
  )

  -- One request of another user.
  serve-others :
      (s : S) (c : Request) (u i : String)
      → UserId (requester c)
      → UserId u
      → requester c ≢ u
      → repo.get (serve repo s c).0 u i ≡ repo.get s u i
  unfolding serve delete
  serve-others s (pulling user since) u i hv hu other = refl
  serve-others s (pushing user req now) u i hv hu other = elim (get-push s user req now u i hv hu) [
    | inl same ↦ same
    | inr (p, q, new) ↦ absurd (other p)
  ]
  serve-others s (deleting user id) u i hv hu other =
      laws.get-remove s user id u i hv hu ∙ rw (other_key user u id i (inl other))

  -- Requests of other users change nothing of a user's items.
  pub serve_all-others :
      (s : S) (u i : String) (cs : List Request)
      → UserId u
      → All (λ c. UserId (requester c) × (requester c ≢ u)) cs
      → repo.get (serve_all repo s cs).0 u i ≡ repo.get s u i
  unfolding serve_all
  serve_all-others s u i [] hu h = refl
  serve_all-others s u i (c ∷ cs) hu ((hv, other), h) =
      serve_all-others (serve repo s c).0 u i cs hu h ∙ serve-others s c u i hv hu other

  -- An item that is not deleted stays, and only a later version ever takes its place.
  pub serve_all-Succeeds :
      (s : S) (u i : String) (cs : List Request) (x : StoredItem)
      → UserId u
      → All (λ c. UserId (requester c) × Spares u i c) cs
      → repo.get s u i ≡ some x
      → (y : StoredItem) × (repo.get (serve_all repo s cs).0 u i ≡ some y) × Succeeds x y
  unfolding serve_all
  serve_all-Succeeds s u i [] x hu h e = (x, e, Succeeds-refl x)
  serve_all-Succeeds s u i (c ∷ cs) x hu ((hv, spares), h) e =
      let (y, at, later) = serve-Succeeds s c u i x hv hu spares e in
      let (z, last, still) = serve_all-Succeeds (serve repo s c).0 u i cs y hu h at in
      (z, last, Succeeds-trans x y z later still)
