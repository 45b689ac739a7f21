-- ===== src/Server/Recovery/Wait.antt =====
-- The waiting period over whole runs of the service.
use vault_keep.Base.{
  ℕ, ◌+◌, ◌≤◌, none, some, true, false, ◌≡◌, ◌∙◌, sym, ap, subst, refl, ◌⊎◌, inl, inr, List, [],
  ◌∷◌, String, arith, Option-cases, eq_iff, if◌then◌else◌,
}
use mathlib.Core.Option.{some-injective, none-ne-some}
use vault_keep.Base.Int.{pos, ltb_ℤ}
use vault_keep.Server.Recovery.{
  Contact, RecoveryRepository, Runtime, EmergencyState, enrolled, pending, denied, released, Event,
  requesting, serve, Notice, verify_sig, request_message, request_access, collect, is_before,
  parse_opt, sealed, refused, deny,
}
use vault_keep.Server.Recovery.Stores.{IsRepository}
use vault_keep.Server.Recovery.Calls.{Moves, ask, refuse, release}
use vault_keep.Server.Recovery.Steps.{serve-Moves, born_enrolled, IsFresh}

-- the latest call first
abbrev pub History : Type 0
History = List (Event × ℕ)

-- the time of the latest call
abbrev pub clock : History → ℕ
clock [] = 0
clock ((e, now) ∷ h) = now

module _ {S : Type 0} (repo : RecoveryRepository S) (laws : IsRepository repo) (rt : Runtime) where
  -- Runs of the service from a store: the clock does not run backwards, new ids are fresh, and the
  -- end of a waiting period is an instant that a `Date` can hold.
  pub data Runs (s : S) : S → History → Type 0 where
    start : Runs s s []
    next :
        {t : S} {h : History}
        → Runs s t h
        → (e : Event) (now : ℕ) → clock h ≤ now
        → now + rt.wait_ms ≤ 8640000000000000
        → IsFresh repo laws rt t e
        → Runs s (serve repo rt t e now).0 ((e, now) ∷ h)

  -- The history has a request for the contact at the time `t`, with a signature that `key` verifies.
  abbrev pub Asked : String → String → ℕ → History → Type 0
  Asked id key t [] = ⊥
  Asked id key t ((e, now) ∷ h) =
      ((signature : String) × (e ≡ requesting id signature)
        × (verify_sig repo rt key (request_message id) signature ≡ true)
        × (now ≡ t))
      ⊎ Asked id key t h

  -- What the state of a contact says of the history.
  abbrev Phase : History → Contact → EmergencyState → Type 0
  Phase h c enrolled = Unit
  Phase h c denied = Unit
  Phase h c pending =
      (t : ℕ) × (c.unlock_at ≡ some (rt.dates.iso (t + rt.wait_ms)))
      × (t + rt.wait_ms ≤ 8640000000000000)
      × Asked c.id c.contact_signing_public_key t h
  Phase h c released =
      (t : ℕ) × (t + rt.wait_ms ≤ clock h) × Asked c.id c.contact_signing_public_key t h

  -- The contact stays in its phase when the history grows.
  Phase-later :
      (h : History) (e : Event) (now : ℕ) (c : Contact) (state : EmergencyState)
      → clock h ≤ now
      → Phase h c state
      → Phase ((e, now) ∷ h) c state
  Phase-later h e now c enrolled le p = tt
  Phase-later h e now c denied le p = tt
  Phase-later h e now c pending le (t, at, fits, asked) = (t, at, fits, inr asked)
  Phase-later h e now c released le (t, due, asked) = (t, omega arith, inr asked)

  due-le : (now t : ℕ) → ltb_ℤ (pos now) (pos t) ≡ false → t ≤ now
  unfolding ltb_ℤ
  due-le now t h = ground arith

  -- The waiting period is over when the test of `collect` lets it pass.
  timer_over :
      (c : Contact) (now t : ℕ)
      → c.unlock_at ≡ some (rt.dates.iso t)
      → t ≤ 8640000000000000
      → is_before now (parse_opt rt.dates.parse c.unlock_at) ≡ false
      → t ≤ now
  timer_over c now t at fits due = due-le now t (
      sym (ap (is_before now) (ap (parse_opt rt.dates.parse) at ∙ rt.dates.parse-iso t fits)) ∙ due)

  Phase-Moves :
      (h : History) (e : Event) (now : ℕ) (c d : Contact) (notices : List Notice)
      → now + rt.wait_ms ≤ 8640000000000000
      → Phase h c c.state
      → Moves repo rt e now c d notices
      → Phase ((e, now) ∷ h) d d.state
  Phase-Moves h e now c d notices fits p (ask signature call state signed new told) =
      subst (λ x. Phase ((e, now) ∷ h) x x.state) (sym new)
        (now, refl, fits, inl (signature, call, signed, refl))
  Phase-Moves h e now c d notices fits p (refuse call state new told) =
      subst (λ x. Phase ((e, now) ∷ h) x x.state) (sym new) tt
  Phase-Moves h e now c d notices fits p (release signature call state signed due new told) =
      let (t, at, ok_date, asked) = subst (Phase h c) state p in
      subst (λ x. Phase ((e, now) ∷ h) x x.state) (sym new)
        (t, timer_over c now (t + rt.wait_ms) at ok_date due, inr asked)

  -- In a run from a store with no contact, every contact is in a phase that the history explains.
  Runs-Phase :
      {s t : S} {h : History} (id : String) (c : Contact)
      → ((i : String) → repo.get_contact s i ≡ none)
      → Runs s t h
      → repo.get_contact t id ≡ some c
      → Phase h c c.state
  Runs-Phase id c nobody start found = absurd (none-ne-some c (sym (nobody id) ∙ found))
  Runs-Phase id c nobody (next {t} {h} r e now le fits fresh) found =
      elim (Option-cases (repo.get_contact t id)) [
        | inl missing ↦
            subst (λ x. Phase ((e, now) ∷ h) c x)
              (sym (born_enrolled repo laws rt t e now id c fresh missing found)) tt
        | inr (b, before) ↦ elim ((serve-Moves repo laws rt t e now id b fresh before).0) [
          | inl same ↦
              let eq = some-injective b c (sym same ∙ found) in
              Phase-later h e now c c.state le
                (Runs-Phase id c nobody r (before ∙ ap (λ (x : Contact). some x) eq))
          | inr (d, after, move) ↦
              let eq = some-injective d c (sym after ∙ found) in
              subst (λ x. Phase ((e, now) ∷ h) x x.state) eq
                (Phase-Moves h e now b d (serve repo rt t e now).1 fits
                  (Runs-Phase id b nobody r before) move)
        ]
      ]

  collect-sealed :
      (s : S) (id signature : String) (now : ℕ) (c : Contact) {e w : String}
      → repo.get_contact s id ≡ some c
      → (collect repo rt s id signature now).1 ≡ sealed e w
      → (c.state ≡ released)
        ⊎ ((c.state ≡ pending) × (is_before now (parse_opt rt.dates.parse c.unlock_at) ≡ false))
  unfolding collect
  collect-sealed s id signature now c found h = ground arith

  -- In every run that starts with no contact: when `collect` hands over a sealed key, the contact had
  -- asked for it with its own signature, and the waiting period has passed since.
  pub collect-after_wait :
      {s t : S} {h : History} (id signature : String) (now : ℕ) (c : Contact) {e w : String}
      → ((i : String) → repo.get_contact s i ≡ none)
      → Runs s t h
      → clock h ≤ now
      → repo.get_contact t id ≡ some c
      → (collect repo rt t id signature now).1 ≡ sealed e w
      → (asked_at : ℕ) × Asked c.id c.contact_signing_public_key asked_at h
        × (asked_at + rt.wait_ms ≤ now)
  collect-after_wait {h} id signature now c nobody r le found handed =
      let phase = Runs-Phase id c nobody r found in
      elim (collect-sealed _ id signature now c found handed) [
        | inl was_released ↦
            let (t, due, asked) = subst (Phase h c) was_released phase in (t, asked, omega arith)
        | inr (was_pending, due) ↦
            let (t, at, fits, asked) = subst (Phase h c) was_pending phase in
            (t, asked, timer_over c now (t + rt.wait_ms) at fits due)
      ]

  denied_stays :
      {e : Event} {now : ℕ} {c d : Contact} {notices : List Notice}
      → c.state ≡ denied
      → Moves repo rt e now c d notices
      → ⊥
  denied_stays no_more (ask signature call state signed new told) = cc
  denied_stays no_more (refuse call state new told) = cc
  denied_stays no_more (release signature call state signed due new told) = cc

  collect-denied :
      (s : S) (id signature : String) (now : ℕ) (c : Contact)
      → repo.get_contact s id ≡ some c
      → c.state ≡ denied
      → (collect repo rt s id signature now).1 ≡ refused
  unfolding collect
  collect-denied s id signature now c found h = ground arith

  request-denied :
      (s : S) (id signature : String) (now : ℕ) (c : Contact)
      → repo.get_contact s id ≡ some c
      → c.state ≡ denied
      → (request_access repo rt s id signature now).1 ≡ none
  unfolding request_access
  request-denied s id signature now c found h = ground arith

  Runs-denied :
      {s t : S} {h : History} (id : String) (c : Contact)
      → c.state ≡ denied
      → repo.get_contact s id ≡ some c
      → Runs s t h
      → repo.get_contact t id ≡ some c
  Runs-denied id c no_more found start = found
  Runs-denied id c no_more found (next {t} r e now le fits fresh) =
      elim ((serve-Moves repo laws rt t e now id c fresh (Runs-denied id c no_more found r)).0) [
        | inl same ↦ same
        | inr (d, after, move) ↦ absurd (denied_stays no_more move)
      ]

  deny-granted :
      (s : S) (user id : String) (c : Contact)
      → repo.get_contact s id ≡ some c
      → (deny repo rt s user id).1 ≡ true
      → (deny repo rt s user id).0
        ≡ repo.update_contact s (record c { state = denied; unlock_at = none })
  unfolding deny
  deny-granted s user id c found h = ground arith

  -- A denial is permanent: once `deny` was granted for a contact, whatever is called afterwards, the
  -- contact stays denied and is otherwise as it was but for its timer, its requests are refused, and the
  -- sealed key stays on the server. The calls are those of a run: the clock does not run backwards, new ids
  -- are fresh and dates are in range; and the store keeps the laws of a repository.
  pub denied_forever :
      {s t : S} {h : History} (user id signature : String) (now : ℕ) (c : Contact)
      → repo.get_contact s id ≡ some c
      → (deny repo rt s user id).1 ≡ true
      → Runs (deny repo rt s user id).0 t h
      → (repo.get_contact t id ≡ some (record c { state = denied; unlock_at = none }))
        × ((request_access repo rt t id signature now).1 ≡ none)
        × ((collect repo rt t id signature now).1 ≡ refused)
  denied_forever {s} user id signature now c found granted r =
      let d : Contact = record c { state = denied; unlock_at = none } in
      let same = laws.get_contact-id s id found in
      let law = laws.get_contact-update_contact s d id (ap (repo.get_contact s) same ∙ found) in
      let placed =
        ap (λ x. repo.get_contact x id) (deny-granted s user id c found granted)
        ∙ law
        ∙ ap (λ b. if b then some d else repo.get_contact s id) ((eq_iff c.id id).1 same) in
      let after = Runs-denied id d refl placed r in
      (
        after,
        request-denied _ id signature now d after refl,
        collect-denied _ id signature now d after refl,
      )
