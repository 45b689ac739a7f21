-- ===== src/Server/Recovery/Steps.antt =====
-- The state machine of an emergency contact: which call moves a contact from which state, and what
-- it notifies.
use vault_keep.Base.{
  ℕ, none, some, ◌≡◌, ◌∙◌, sym, ap, subst, ◌⊎◌, inl, inr, List, String, str_eq, eq_iff, arith,
  Bool-cases, Option, Option-cases, refl, true, false,
}
use mathlib.Core.Option.{some-injective, none-ne-some}
use vault_keep.Server.Recovery.{
  Contact, RecoveryRepository, Runtime, enrolled, Event, adding, serve, Notice, add_contact,
  new_contact, ContactInput, requesting, denying, collecting, Collected, sealed, refused, waiting,
  released, pending, carried, handed, verify_sig, collect_message, collect, is_before, parse_opt,
}
use vault_keep.Server.Recovery.Stores.{IsRepository}
use vault_keep.Server.Recovery.Calls.{Moves, Outcome, serve-Outcome}

-- What a call does to the contact `id`, over a store that keeps the repository's laws.
module _ {S : Type 0} (repo : RecoveryRepository S) (laws : IsRepository repo) (rt : Runtime) where
  -- The id of a new contact is one that the store does not hold: what `randomUUID` is used for.
  abbrev pub IsFresh : S → Event → Type 0
  IsFresh s (adding input uuid) = repo.get_contact s uuid ≡ none
  IsFresh s _ = Unit

  other_added :
      (s : S) (input : ContactInput) (uuid id : String) (now : ℕ) {c : Contact}
      → repo.get_contact s uuid ≡ none
      → repo.get_contact s id ≡ some c
      → repo.get_contact (add_contact repo rt s input uuid now).0 id ≡ some c
  unfolding add_contact
  other_added s input uuid id now {c} fresh found = ground (
    arith,
    laws.get_contact-create_contact s (new_contact repo rt input uuid now) id fresh,
    eq_iff uuid id,
  )

  moved :
      (s : S) (e : Event) (now : ℕ) (id : String) (c : Contact) (out : S × List Notice)
      → Outcome repo rt s e now out
      → repo.get_contact s id ≡ some c
      → (repo.get_contact out.0 id ≡ some c)
        ⊎ ((d : Contact) × (repo.get_contact out.0 id ≡ some d) × Moves repo rt e now c d out.1)
  moved s e now id c out (inl same) found = inl (ap (λ t. repo.get_contact t id) same ∙ found)
  moved s e now id c out (inr (b, d, at, ids, state, move)) found =
      let old : repo.get_contact s d.id ≡ some b = ap (repo.get_contact s) (sym ids) ∙ at in
      let law =
        ap (λ t. repo.get_contact t id) state ∙ laws.get_contact-update_contact s d id old in
      elim (Bool-cases (str_eq d.id id)) [
        | inr other ↦ inl ((rw other at law) ∙ found)
        | inl same ↦
            let here : some b ≡ some c =
              sym old ∙ ap (repo.get_contact s) ((eq_iff d.id id).0 same) ∙ found in
            inr (
              d,
              (rw same at law),
              subst (λ x. Moves repo rt e now x d out.1) (some-injective b c here) move,
            )
      ]

  contact-Moves :
      (s : S) (e : Event) (now : ℕ) (id : String) (c : Contact)
      → IsFresh s e
      → repo.get_contact s id ≡ some c
      → (repo.get_contact (serve repo rt s e now).0 id ≡ some c)
        ⊎ ((d : Contact) × (repo.get_contact (serve repo rt s e now).0 id ≡ some d)
            × Moves repo rt e now c d (serve repo rt s e now).1)
  contact-Moves s (adding input uuid) now id c fresh found =
      inl (unfold serve in other_added s input uuid id now fresh found)
  contact-Moves s e now id c fresh found =
      moved s e now id c (serve repo rt s e now) (serve-Outcome repo rt laws s e now tt) found

  -- What is handed over is the key of a contact that collects it with its signature: after the wait, or
  -- when it was released before.
  abbrev pub HandsOver : S → Event → ℕ → Option (String × String) → Type 0
  HandsOver s e now none = Unit
  HandsOver s e now (some (ephemeral, wrapped)) =
      (b : Contact) × (signature : String) × (repo.get_contact s b.id ≡ some b)
      × (e ≡ collecting b.id signature)
      × (verify_sig repo rt b.contact_signing_public_key (collect_message b.id) signature ≡ true)
      × ((b.state ≡ released)
          ⊎ ((b.state ≡ pending) × (is_before now (parse_opt rt.dates.parse b.unlock_at) ≡ false)))
      × (ephemeral ≡ b.ephemeral_public_key)
      × (wrapped ≡ b.wrapped_key)

  hands_over :
      (s : S) (id signature : String) (now : ℕ) (b : Contact) (ephemeral wrapped : String)
      → repo.get_contact s id ≡ some b
      → (collect repo rt s id signature now).1 ≡ sealed ephemeral wrapped
      → (verify_sig repo rt b.contact_signing_public_key (collect_message id) signature ≡ true)
        × ((b.state ≡ released)
            ⊎ ((b.state ≡ pending)
                × (is_before now (parse_opt rt.dates.parse b.unlock_at) ≡ false)))
        × (ephemeral ≡ b.ephemeral_public_key)
        × (wrapped ≡ b.wrapped_key)
  unfolding collect
  hands_over s id signature now b ephemeral wrapped found h = ground arith

  collect-missing :
      (s : S) (id signature : String) (now : ℕ) (ephemeral wrapped : String)
      → repo.get_contact s id ≡ none
      → (collect repo rt s id signature now).1 ≡ sealed ephemeral wrapped
      → ⊥
  unfolding collect
  collect-missing s id signature now ephemeral wrapped missing h = ground arith

  carried-HandsOver :
      (s : S) (id signature : String) (now : ℕ) (answer : Collected)
      → (collect repo rt s id signature now).1 ≡ answer
      → HandsOver s (collecting id signature) now (carried repo rt answer)
  carried-HandsOver s id signature now refused h = tt
  carried-HandsOver s id signature now (waiting unlock_at) h = tt
  carried-HandsOver s id signature now (sealed ephemeral wrapped) h =
      elim (Option-cases (repo.get_contact s id)) [
        | inl missing ↦ absurd (collect-missing s id signature now ephemeral wrapped missing h)
        | inr (b, found) ↦
            let (signed, due, same_key, same_blob) =
              hands_over s id signature now b ephemeral wrapped found h in
            let same = laws.get_contact-id s id found in
            (
              b,
              signature,
              ap (repo.get_contact s) same ∙ found,
              ap (λ i. collecting i signature) (sym same),
              ap
                    (λ i.
                      verify_sig repo rt b.contact_signing_public_key (collect_message i) signature)
                    same
                  ∙ signed,
              due,
              same_key,
              same_blob,
            )
      ]

  serve-HandsOver : (s : S) (e : Event) (now : ℕ) → HandsOver s e now (handed repo rt s e now)
  unfolding handed
  serve-HandsOver s (collecting id signature) now = carried-HandsOver s id signature now _ refl
  serve-HandsOver s (adding input uuid) now = tt
  serve-HandsOver s (requesting id signature) now = tt
  serve-HandsOver s (denying user id) now = tt

  -- A call leaves a contact as it was, or moves it along one edge of the diagram and sends that edge's
  -- notification: from enrolled to pending by a request that it signed, from pending to denied by its
  -- owner, from pending to released by a collection that it signed, after the wait. And a sealed key that
  -- the call's answer carries is that of a contact which signed this collection, after the wait or when
  -- it was released before. New ids are fresh, and the store keeps the laws of a repository.
  pub serve-Moves :
      (s : S) (e : Event) (now : ℕ) (id : String) (c : Contact)
      → IsFresh s e
      → repo.get_contact s id ≡ some c
      → ((repo.get_contact (serve repo rt s e now).0 id ≡ some c)
          ⊎ ((d : Contact) × (repo.get_contact (serve repo rt s e now).0 id ≡ some d)
              × Moves repo rt e now c d (serve repo rt s e now).1))
        × HandsOver s e now (handed repo rt s e now)
  serve-Moves s e now id c fresh found =
      (contact-Moves s e now id c fresh found, serve-HandsOver s e now)

  unknown_stays :
      (s : S) (e : Event) (now : ℕ) (id : String) (out : S × List Notice)
      → Outcome repo rt s e now out
      → repo.get_contact s id ≡ none
      → repo.get_contact out.0 id ≡ none
  unknown_stays s e now id out (inl same) missing = ap (λ t. repo.get_contact t id) same ∙ missing
  unknown_stays s e now id out (inr (b, d, at, ids, state, move)) missing =
      let old : repo.get_contact s d.id ≡ some b = ap (repo.get_contact s) (sym ids) ∙ at in
      let law =
        ap (λ t. repo.get_contact t id) state ∙ laws.get_contact-update_contact s d id old in
      elim (Bool-cases (str_eq d.id id)) [
        | inr other ↦ (rw other at law) ∙ missing
        | inl same ↦ absurd (
            none-ne-some b
              (sym missing ∙ ap (repo.get_contact s) (sym ((eq_iff d.id id).0 same)) ∙ old))
      ]

  added_enrolled :
      (s : S) (input : ContactInput) (uuid id : String) (now : ℕ) (d : Contact)
      → repo.get_contact s uuid ≡ none
      → repo.get_contact s id ≡ none
      → repo.get_contact (add_contact repo rt s input uuid now).0 id ≡ some d
      → d.state ≡ enrolled
  unfolding add_contact
  added_enrolled s input uuid id now d fresh missing found = ground (
    arith,
    laws.get_contact-create_contact s (new_contact repo rt input uuid now) id fresh,
    eq_iff uuid id,
  )

  -- A contact that a call brings into the store is enrolled.
  pub born_enrolled :
      (s : S) (e : Event) (now : ℕ) (id : String) (d : Contact)
      → IsFresh s e
      → repo.get_contact s id ≡ none
      → repo.get_contact (serve repo rt s e now).0 id ≡ some d
      → d.state ≡ enrolled
  born_enrolled s (adding input uuid) now id d fresh missing found =
      added_enrolled s input uuid id now d fresh missing (unfold serve in found)
  born_enrolled s e now id d fresh missing found = absurd (
      none-ne-some d (
        sym (
          unknown_stays s e now id (serve repo rt s e now) (serve-Outcome repo rt laws s e now tt)
            missing)
        ∙ found))
