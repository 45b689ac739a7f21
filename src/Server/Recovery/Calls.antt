-- ===== src/Server/Recovery/Calls.antt =====
-- The diagram of an emergency contact's states, and each call of the service against it.
use vault_keep.Base.{
  ℕ, ◌+◌, none, some, Bool, true, false, ◌&&◌, not, ◌≡◌, ◌∙◌, sym, ap, refl, ◌⊎◌, inl, inr, List,
  [], ◌∷◌, String, str_eq, eq_iff, arith, Bool-cases, Option-cases,
}
use vault_keep.Server.Recovery.{
  RecoveryRepository, Contact, emergency_denied, emergency_released, Runtime, EmergencyState,
  enrolled, pending, denied, released, Event, adding, requesting, denying, collecting, serve,
  Notice, emergency_requested, emergency_denied, emergency_released, requested, refusal,
  handed_over, verify_sig, request_message, collect_message, request_access, deny, collect,
  is_before, parse_opt, is_pending,
}
use vault_keep.Server.Recovery.Stores.{IsRepository}

module _ {S : Type 0} (repo : RecoveryRepository S) (rt : Runtime) where
  -- The edges of the diagram in the header of recovery.service.ts: `Moves e now c d notices` says
  -- that the call `e` at the time `now` turns the contact `c` into `d`, and what it notifies.
  pub data Moves (e : Event) (now : ℕ) (c d : Contact) (notices : List Notice) : Type 0 where
    ask :
        (signature : String)
        → e ≡ requesting c.id signature
        → c.state ≡ enrolled
        → verify_sig repo rt c.contact_signing_public_key (request_message c.id) signature ≡ true
        → d ≡ record c { state = pending; unlock_at = some (rt.dates.iso (now + rt.wait_ms)) }
        → notices ≡ emergency_requested c.user_id d ∷ []
        → Moves e now c d notices
    refuse :
        e ≡ denying c.user_id c.id
        → c.state ≡ pending
        → d ≡ record c { state = denied; unlock_at = none }
        → notices ≡ emergency_denied c.user_id d ∷ []
        → Moves e now c d notices
    release :
        (signature : String)
        → e ≡ collecting c.id signature
        → c.state ≡ pending
        → verify_sig repo rt c.contact_signing_public_key (collect_message c.id) signature ≡ true
        → is_before now (parse_opt rt.dates.parse c.unlock_at) ≡ false
        → d ≡ record c { state = released }
        → notices ≡ emergency_released c.user_id d ∷ []
        → Moves e now c d notices

  -- a call leaves the store alone, or replaces one contact along an edge
  abbrev pub Outcome : S → Event → ℕ → S × List Notice → Type 0
  Outcome s e now out =
      (out.0 ≡ s)
      ⊎ ((c d : Contact) × (repo.get_contact s c.id ≡ some c)
          × (c.id ≡ d.id)
          × (out.0 ≡ repo.update_contact s d)
          × Moves e now c d out.1)

  abbrev is_enrolled : EmergencyState → Bool
  is_enrolled enrolled = true
  is_enrolled _ = false

  request-moves :
      (s : S) (c : Contact) (id signature : String) (now : ℕ)
      → repo.get_contact s id ≡ some c
      → verify_sig repo rt c.contact_signing_public_key (request_message id) signature
          && is_enrolled c.state
        ≡ true
      → (c.state ≡ enrolled)
        × (verify_sig repo rt c.contact_signing_public_key (request_message id) signature ≡ true)
        × (serve repo rt s (requesting id signature) now ≡ (
          repo.update_contact s (requested repo rt c now),
          emergency_requested c.user_id (requested repo rt c now) ∷ [],
        ))
  unfolding serve request_access
  request-moves s c id signature now found h = ground arith

  request-stays :
      (s : S) (c : Contact) (id signature : String) (now : ℕ)
      → repo.get_contact s id ≡ some c
      → verify_sig repo rt c.contact_signing_public_key (request_message id) signature
          && is_enrolled c.state
        ≡ false
      → (serve repo rt s (requesting id signature) now).0 ≡ s
  unfolding serve request_access
  request-stays s c id signature now found h = ground arith

  request-missing :
      (s : S) (id signature : String) (now : ℕ)
      → repo.get_contact s id ≡ none
      → (serve repo rt s (requesting id signature) now).0 ≡ s
  unfolding serve request_access
  request-missing s id signature now missing = ground arith

  deny-moves :
      (s : S) (c : Contact) (user id : String) (now : ℕ)
      → repo.get_contact s id ≡ some c
      → str_eq c.user_id user && is_pending repo rt c.state ≡ true
      → (c.state ≡ pending)
        × (c.user_id ≡ user)
        × (serve repo rt s (denying user id) now ≡ (
          repo.update_contact s (refusal repo rt c),
          emergency_denied user (refusal repo rt c) ∷ [],
        ))
  unfolding serve deny
  deny-moves s c user id now found h = ground (arith, eq_iff c.user_id user)

  deny-stays :
      (s : S) (c : Contact) (user id : String) (now : ℕ)
      → repo.get_contact s id ≡ some c
      → str_eq c.user_id user && is_pending repo rt c.state ≡ false
      → (serve repo rt s (denying user id) now).0 ≡ s
  unfolding serve deny
  deny-stays s c user id now found h = ground arith

  deny-missing :
      (s : S) (user id : String) (now : ℕ)
      → repo.get_contact s id ≡ none
      → (serve repo rt s (denying user id) now).0 ≡ s
  unfolding serve deny
  deny-missing s user id now missing = ground arith

  -- the tests on the way to a release
  abbrev releases : Contact → String → String → ℕ → Bool
  releases c id signature now =
      verify_sig repo rt c.contact_signing_public_key (collect_message id) signature
      && (is_pending repo rt c.state && not (is_before now (parse_opt rt.dates.parse c.unlock_at)))

  collect-moves :
      (s : S) (c : Contact) (id signature : String) (now : ℕ)
      → repo.get_contact s id ≡ some c
      → releases c id signature now ≡ true
      → (c.state ≡ pending)
        × (verify_sig repo rt c.contact_signing_public_key (collect_message id) signature ≡ true)
        × (is_before now (parse_opt rt.dates.parse c.unlock_at) ≡ false)
        × (serve repo rt s (collecting id signature) now ≡ (
          repo.update_contact s (handed_over repo rt c),
          emergency_released c.user_id (handed_over repo rt c) ∷ [],
        ))
  unfolding serve collect
  collect-moves s c id signature now found h = ground arith

  collect-stays :
      (s : S) (c : Contact) (id signature : String) (now : ℕ)
      → repo.get_contact s id ≡ some c
      → releases c id signature now ≡ false
      → (serve repo rt s (collecting id signature) now).0 ≡ s
  unfolding serve collect
  collect-stays s c id signature now found h = ground arith

  collect-missing :
      (s : S) (id signature : String) (now : ℕ)
      → repo.get_contact s id ≡ none
      → (serve repo rt s (collecting id signature) now).0 ≡ s
  unfolding serve collect
  collect-missing s id signature now missing = ground arith

  -- an event that adds no contact
  abbrev pub IsCall : Event → Type 0
  IsCall (adding input uuid) = ⊥
  IsCall _ = Unit

  pub serve-Outcome :
      (laws : IsRepository repo) (s : S) (e : Event) (now : ℕ)
      → IsCall e
      → Outcome s e now (serve repo rt s e now)
  serve-Outcome laws s (adding input uuid) now h = absurd h
  serve-Outcome laws s (requesting id signature) now h =
      elim (Option-cases (repo.get_contact s id)) [
        | inl missing ↦ inl (request-missing s id signature now missing)
        | inr (c, found) ↦
            elim (Bool-cases (
              verify_sig repo rt c.contact_signing_public_key (request_message id) signature
              && is_enrolled c.state)) [
                | inr no_move ↦ inl (request-stays s c id signature now found no_move)
                | inl move ↦
                    let (state, signed, e) = request-moves s c id signature now found move in
                    let same = laws.get_contact-id s id found in
                    inr (
                      c,
                      requested repo rt c now,
                      ap (repo.get_contact s) same ∙ found,
                      refl,
                      ap (λ p. p.0) e,
                      ask signature (ap (λ i. requesting i signature) (sym same)) state
                          (ap
                              (λ i.
                                verify_sig repo rt c.contact_signing_public_key (request_message i)
                                  signature)
                              same
                            ∙ signed)
                          refl (ap (λ p. p.1) e),
                    )
              ]
      ]
  serve-Outcome laws s (denying user id) now h = elim (Option-cases (repo.get_contact s id)) [
    | inl missing ↦ inl (deny-missing s user id now missing)
    | inr (c, found) ↦ elim (Bool-cases (str_eq c.user_id user && is_pending repo rt c.state)) [
      | inr no_move ↦ inl (deny-stays s c user id now found no_move)
      | inl move ↦
          let (state, owns, e) = deny-moves s c user id now found move in
          let same = laws.get_contact-id s id found in
          inr (
            c,
            refusal repo rt c,
            ap (repo.get_contact s) same ∙ found,
            refl,
            ap (λ p. p.0) e,
            refuse (cc (same, owns)) state refl (
                ap (λ p. p.1) e ∙ ap (λ u. emergency_denied u (refusal repo rt c) ∷ []) (sym owns)),
          )
    ]
  ]
  serve-Outcome laws s (collecting id signature) now h =
      elim (Option-cases (repo.get_contact s id)) [
        | inl missing ↦ inl (collect-missing s id signature now missing)
        | inr (c, found) ↦ elim (Bool-cases (releases c id signature now)) [
          | inr no_move ↦ inl (collect-stays s c id signature now found no_move)
          | inl move ↦
              let (state, signed, due, e) = collect-moves s c id signature now found move in
              let same = laws.get_contact-id s id found in
              inr (
                c,
                handed_over repo rt c,
                ap (repo.get_contact s) same ∙ found,
                refl,
                ap (λ p. p.0) e,
                release signature (ap (λ i. collecting i signature) (sym same)) state
                    (ap
                        (λ i.
                          verify_sig repo rt c.contact_signing_public_key (collect_message i)
                            signature)
                        same
                      ∙ signed)
                    due refl (ap (λ p. p.1) e),
              )
        ]
      ]
