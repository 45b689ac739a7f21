-- ===== src/Extension/Fill/Matches.antt =====
-- What the matcher offers, and in which order.
use mathlib.Core.List.{Perm}
use mathlib.Core.List.Perm
use vault_keep.Base.{
  ℕ, ◌≤◌, Bool, true, false, ◌&&◌, List, [], ◌∷◌, map, filter, String, All, ◌≡◌, refl, inl, inr,
  arith, or_else, Bool-cases,
}
use vault_keep.Extension.Fill.{
  Runtime, Credential, present, Safety, safe, unsafe, is_safe, Match, may_offer, goes_before,
  insert, sort, scored, match_credentials,
}
use vault_keep.Extension.Fill.Guarded.{IsSecure, is_autofill_safe_lem}

-- Every score is at least those after it.
abbrev pub BestFirst : List Match → Type 0
BestFirst [] = Unit
BestFirst (m ∷ ms) = All (λ x. x.score ≤ m.score) ms × BestFirst ms

and-right : (a b : Bool) → (a && b) ≡ true → b ≡ true
and-right true b h = h
and-right false b h = cc

module _ (rt : Runtime) where
  insert-Perm : (m : Match) (xs : List Match) → Perm (insert rt m xs) (m ∷ xs)
  unfolding insert
  insert-Perm m [] = Perm.refl (m ∷ [])
  insert-Perm m (x ∷ xs) = elim (Bool-cases (goes_before rt m x)) [
    | inl e ↦ rw e (Perm.refl (m ∷ x ∷ xs))
    | inr e ↦ rw e (Perm.trans (Perm.cons x (insert-Perm m xs)) (Perm.swap m x xs))
  ]

  sort-Perm : (ms : List Match) → Perm (sort rt ms) ms
  unfolding sort
  sort-Perm [] = Perm.refl []
  sort-Perm (m ∷ ms) = Perm.trans (insert-Perm m (sort rt ms)) (Perm.cons m (sort-Perm ms))

  goes_before-score : (a b : Match) → goes_before rt a b ≡ true → b.score ≤ a.score
  unfolding goes_before
  goes_before-score a b h = ground arith

  not-goes_before-score : (a b : Match) → goes_before rt a b ≡ false → a.score ≤ b.score
  unfolding goes_before
  not-goes_before-score a b h = ground arith

  All-insert :
      (P : Match → Type 0) (x : Match) (xs : List Match) → P x → All P xs → All P (insert rt x xs)
  unfolding insert
  All-insert P x [] hx h = (hx, tt)
  All-insert P x (y ∷ ys) hx (hy, h) = elim (Bool-cases (goes_before rt x y)) [
    | inl e ↦ rw e ((hx, (hy, h)))
    | inr e ↦ rw e ((hy, All-insert P x ys hx h))
  ]

  All-score :
      (a b : ℕ) (xs : List Match) → a ≤ b → All (λ x. x.score ≤ a) xs → All (λ x. x.score ≤ b) xs
  All-score a b [] h hs = tt
  All-score a b (x ∷ xs) h (hx, hs) = (omega arith, All-score a b xs h hs)

  insert-BestFirst : (x : Match) (xs : List Match) → BestFirst xs → BestFirst (insert rt x xs)
  unfolding insert
  insert-BestFirst x [] h = (tt, tt)
  insert-BestFirst x (y ∷ ys) (hy, h) = elim (Bool-cases (goes_before rt x y)) [
    | inl e ↦
        let first = goes_before-score x y e in
        rw e (((first, All-score y.score x.score ys first hy), (hy, h)))
    | inr e ↦ rw e (
        (
          All-insert (λ z. z.score ≤ y.score) x ys (not-goes_before-score x y e) hy,
          insert-BestFirst x ys h,
        ))
  ]

  sort-BestFirst : (ms : List Match) → BestFirst (sort rt ms)
  unfolding sort
  sort-BestFirst [] = tt
  sort-BestFirst (m ∷ ms) = insert-BestFirst m (sort rt ms) (sort-BestFirst ms)

  sort-All : (P : Match → Type 0) (ms : List Match) → All P ms → All P (sort rt ms)
  unfolding sort
  sort-All P [] h = tt
  sort-All P (m ∷ ms) (hm, h) = All-insert P m (sort rt ms) hm (sort-All P ms h)

  is_safe_iff : (s : Safety) → is_safe s ≡ true → s ≡ safe
  is_safe_iff safe h = refl
  is_safe_iff (unsafe r) h = cc

  may_offer-IsSecure :
      (c : Credential) (origin : String)
      → may_offer rt origin c ≡ true
      → IsSecure rt (or_else "" c.url) origin
  unfolding may_offer
  may_offer-IsSecure c origin h =
      (is_autofill_safe_lem rt (or_else "" c.url) origin).0
        (is_safe_iff _ (and-right (present c.url) _ h))

  IsSecure-may_offer :
      (c : Credential) (origin : String)
      → present c.url ≡ true
      → IsSecure rt (or_else "" c.url) origin
      → may_offer rt origin c ≡ true
  unfolding may_offer
  IsSecure-may_offer c origin hp h =
      rw (hp, (is_autofill_safe_lem rt (or_else "" c.url) origin).1 h) refl

  offered-IsSecure :
      (origin : String) (cs : List Credential)
      → All
          (λ m. IsSecure rt (or_else "" m.credential.url) origin)
          (map scored (filter (may_offer rt origin) cs))
  offered-IsSecure origin [] = tt
  offered-IsSecure origin (c ∷ cs) = elim (Bool-cases (may_offer rt origin c)) [
    | inl e ↦ rw e ((may_offer-IsSecure c origin e, offered-IsSecure origin cs))
    | inr e ↦ rw e (offered-IsSecure origin cs)
  ]

  -- The matches are the credentials that may be offered, each once and with its score, in the order
  -- of their scores, best first; and each of them belongs to the page's host, over HTTPS.
  pub match_credentials_lem :
      (creds : List Credential) (origin : String)
      → Perm (match_credentials rt creds origin) (map scored (filter (may_offer rt origin) creds))
        × BestFirst (match_credentials rt creds origin)
        × All
            (λ m. IsSecure rt (or_else "" m.credential.url) origin)
            (match_credentials rt creds origin)
  unfolding match_credentials
  match_credentials_lem creds origin = (
    sort-Perm _,
    sort-BestFirst _,
    sort-All (λ m. IsSecure rt (or_else "" m.credential.url) origin) _
        (offered-IsSecure origin creds),
  )
