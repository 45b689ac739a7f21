-- ===== src/Server/Devices/Trust.antt =====
-- How a device comes to be trusted.
use vault_keep.Base.{
  none, some, Bool, true, false, ◌&&◌, ◌≡◌, ◌≢◌, ◌∙◌, sym, ap, refl, ◌⊎◌, inl, inr, List, [], ◌∷◌,
  String, str_eq, same_key, arith, Bool-cases, Option-cases, Thrown, ok, throw, All, ◌↔◌,
}
use mathlib.Core.Bool.{true≢false, false≢true}
use vault_keep.Server.Devices.{
  DeviceRecord, DeviceRepository, ApproveResult, approved, refused, approval_message, enrolled,
  enroll, approve, is_approved, is_empty, Request, enrolling, approving, serve, serve_all,
  is_approved_record,
}
use vault_keep.Server.Devices.Stores.{IsRepository}

module _ {S : Type 0} (repo : DeviceRepository S)
    (verify : String → String → String → Thrown Bool) where
  -- What the server checks before it approves a device: the approver is a trusted device of the same
  -- user, the target is enrolled, and the signature is the approver's over the target's id.
  pub record Vouches (s : S) (user approver target signature : String) : Type 0 where
    pub by : DeviceRecord
    pub target_record : DeviceRecord
    pub found : repo.get s user approver ≡ some by
    pub trusted : by.approved ≡ true
    pub listed : repo.get s user target ≡ some target_record
    pub signed : verify by.signing_public_key (approval_message target) signature ≡ ok true

  -- An approval that is vouched for sets the flag of its target.
  approve-vouched :
      (s : S) (user approver target signature : String)
      → Vouches s user approver target signature
      → approve repo verify s user approver target signature
        ≡ (repo.set_approved s user target true, ok approved)
  unfolding approve
  approve-vouched s user approver target signature v =
      ground (arith, v.found, v.trusted, v.listed, v.signed)

  -- An approval that is not answered with success changes nothing.
  approve-refused :
      (s : S) (user approver target signature : String)
      → (approve repo verify s user approver target signature).1 ≢ ok approved
      → (approve repo verify s user approver target signature).0 ≡ s
  unfolding approve
  approve-refused s user approver target signature h = ground arith

  approve-Vouches :
      (s : S) (user approver target signature : String)
      → (approve repo verify s user approver target signature).1 ≡ ok approved
      → Vouches s user approver target signature
  unfolding approve
  approve-Vouches s user approver target signature h =
      elim (Option-cases (repo.get s user approver)) [
        | inl missing ↦ absurd (ground arith)
        | inr (a, found) ↦ elim (Option-cases (repo.get s user target)) [
          | inl missing ↦ absurd (ground arith)
          | inr (t, listed) ↦ record {
            by = a;
            target_record = t;
            found = found;
            trusted = ground arith;
            listed = listed;
            signed = ground arith;
          }
        ]
      ]

  -- An approval is granted exactly when the approver is a trusted device of the user, the target is a
  -- device of the user, and the signature is the approver's over the target's id. Then it sets the
  -- flag of the target, and otherwise it changes nothing.
  pub approve_lem :
      (s : S) (user approver target signature : String)
      → (((approve repo verify s user approver target signature).1 ≡ ok approved)
          ↔ Vouches s user approver target signature)
        × (Vouches s user approver target signature
            → (approve repo verify s user approver target signature).0
              ≡ repo.set_approved s user target true)
        × (¬ Vouches s user approver target signature
            → (approve repo verify s user approver target signature).0 ≡ s)
  approve_lem s user approver target signature = (
    (
      approve-Vouches s user approver target signature,
      λ v. ap (λ p. p.1) (approve-vouched s user approver target signature v),
    ),
    λ v. ap (λ p. p.0) (approve-vouched s user approver target signature v),
    λ n.
        approve-refused s user approver target signature
          (λ h. n (approve-Vouches s user approver target signature h)),
  )

  -- The id of a new device is one that the store does not hold: what `randomUUID` is used for.
  abbrev pub IsFresh : S → Request → Type 0
  IsFresh s (enrolling input uuid now) = repo.get s input.user_id uuid ≡ none
  IsFresh s (approving user approver target signature) = Unit

  -- Why a request makes a device trusted.
  abbrev pub Cause : S → String → String → Request → Type 0
  Cause s u d (enrolling input uuid now) =
      (input.user_id ≡ u) × (uuid ≡ d) × (repo.list_for_user s u ≡ [])
  Cause s u d (approving user approver target signature) =
      (user ≡ u) × (target ≡ d) × Vouches s user approver target signature

abbrev pub owner : Request → String
owner (enrolling input uuid now) = input.user_id
owner (approving user approver target signature) = user

is_empty-eq : (l : List DeviceRecord) → is_empty l ≡ true → l ≡ []
is_empty-eq [] h = refl
is_empty-eq (x ∷ l) h = cc

abbrev is_granted : Thrown ApproveResult → Bool
is_granted (ok approved) = true
is_granted (ok (refused reason)) = false
is_granted (throw e) = false

is_granted-eq : (r : Thrown ApproveResult) → is_granted r ≡ true → r ≡ ok approved
is_granted-eq (ok approved) h = refl
is_granted-eq _ h = cc

module _ {S : Type 0} {UserId : String → Type 0} (repo : DeviceRepository S)
    (laws : IsRepository repo UserId) (verify : String → String → String → Thrown Bool) where
  -- A device that a request leaves trusted was trusted before, or is the first device of its user,
  -- or was vouched for by the signature of a trusted device of its user.
  pub serve-Cause :
      (s : S) (r : Request) (u d : String)
      → UserId u
      → UserId (owner r)
      → IsFresh repo verify s r
      → is_approved repo (serve repo verify s r) u d ≡ true
      → (is_approved repo s u d ≡ true) ⊎ Cause repo verify s u d r
  unfolding serve enroll is_approved
  serve-Cause s (enrolling input uuid now) u d hu ho fresh h =
      let rec = enrolled input (is_empty (repo.list_for_user s input.user_id)) uuid now in
      let e = laws.get-create s rec u d ho hu fresh in
      elim (Bool-cases (str_eq input.user_id u && str_eq uuid d)) [
        | inl same ↦
            let (p, q) = same_key input.user_id u uuid d same in
            let first : is_empty (repo.list_for_user s input.user_id) ≡ true =
              sym (ap is_approved_record (rw same at e)) ∙ h in
            inr (p, q, ap (repo.list_for_user s) (sym p) ∙ is_empty-eq _ first)
        | inr other ↦ inl (sym (ap is_approved_record (rw other at e)) ∙ h)
      ]
  serve-Cause s (approving user approver target signature) u d hu ho fresh h =
      let result = approve repo verify s user approver target signature in
      let (granted, sets, keeps) = approve_lem repo verify s user approver target signature in
      elim (Bool-cases (is_granted result.1)) [
        | inl given ↦
            let v = granted.0 (is_granted-eq result.1 given) in
            let e =
              ap (λ t. repo.get t u d) (sets v)
              ∙ laws.get-set_approved s user target true u d ho hu in
            elim (Bool-cases (str_eq user u && str_eq target d)) [
              | inl same ↦ let (p, q) = same_key user u target d same in inr (p, q, v)
              | inr other ↦ inl (sym (ap is_approved_record (rw other at e)) ∙ h)
            ]
        | inr denied ↦ inl (
            sym (
              ap (λ t. is_approved_record (repo.get t u d))
                (approve-refused repo verify s user approver target signature
                  (λ g. true≢false (sym (ap is_granted g) ∙ denied))))
            ∙ h)
      ]

  -- Along a run, every request is one of a valid user, and every new id is fresh.
  abbrev pub IsProper : S → List Request → Type 0
  IsProper s [] = Unit
  IsProper s (r ∷ rs) =
      UserId (owner r) × IsFresh repo verify s r × IsProper (serve repo verify s r) rs

  -- No key verifies the signature of the request.
  abbrev pub IsUnsigned : Request → Type 0
  IsUnsigned (enrolling input uuid now) = Unit
  IsUnsigned (approving user approver target signature) =
      (key : String) → verify key (approval_message target) signature ≢ ok true

  -- the user has at most one trusted device
  abbrev pub HasOneTrusted : S → String → Type 0
  HasOneTrusted s u =
      (d e : String) → is_approved repo s u d ≡ true → is_approved repo s u e ≡ true → d ≡ e

  none_trusted :
      (s : S) (u d : String) → repo.list_for_user s u ≡ [] → is_approved repo s u d ≢ true
  unfolding is_approved
  none_trusted s u d h t = false≢true (sym (ap is_approved_record (laws.none_of_list s u d h)) ∙ t)

  serve-HasOneTrusted :
      (s : S) (r : Request) (u : String)
      → UserId u
      → UserId (owner r)
      → IsFresh repo verify s r
      → IsUnsigned r
      → HasOneTrusted s u
      → HasOneTrusted (serve repo verify s r) u
  serve-HasOneTrusted s (enrolling input uuid now) u hu ho fresh unsigned one d e hd he =
      elim (serve-Cause s (enrolling input uuid now) u d hu ho fresh hd) [
        | inl old ↦ elim (serve-Cause s (enrolling input uuid now) u e hu ho fresh he) [
          | inl old' ↦ one d e old old'
          | inr (p, q, first) ↦ absurd (none_trusted s u d first old)
        ]
        | inr (p, q, first) ↦ elim (serve-Cause s (enrolling input uuid now) u e hu ho fresh he) [
          | inl old' ↦ absurd (none_trusted s u e first old')
          | inr (p', q', first') ↦ sym q ∙ q'
        ]
      ]
  serve-HasOneTrusted s (approving user approver target signature) u hu ho fresh unsigned one d e hd
        he =
      let old = serve-Cause s (approving user approver target signature) u d hu ho fresh hd in
      let old' = serve-Cause s (approving user approver target signature) u e hu ho fresh he in
      elim old [
        | inl a ↦ elim old' [
          | inl b ↦ one d e a b
          | inr (p, q, v) ↦ absurd (unsigned v.by.signing_public_key v.signed)
        ]
        | inr (p, q, v) ↦ absurd (unsigned v.by.signing_public_key v.signed)
      ]

  serve_all-HasOneTrusted :
      (s : S) (rs : List Request) (u : String)
      → UserId u
      → IsProper s rs
      → All IsUnsigned rs
      → HasOneTrusted s u
      → HasOneTrusted (serve_all repo verify s rs) u
  unfolding serve_all
  serve_all-HasOneTrusted s [] u hu proper unsigned one = one
  serve_all-HasOneTrusted s (r ∷ rs) u hu (ho, fresh, proper) (now, later) one =
      serve_all-HasOneTrusted (serve repo verify s r) rs u hu proper later
        (serve-HasOneTrusted s r u hu ho fresh now one)

  -- Whatever is requested, as long as no approval carries a signature that some key verifies, a user
  -- who had at most one trusted device has no two.
  pub serve_all-is_approved :
      (s : S) (rs : List Request) (u d e : String)
      → UserId u
      → IsProper s rs
      → All IsUnsigned rs
      → HasOneTrusted s u
      → is_approved repo (serve_all repo verify s rs) u d ≡ true
      → is_approved repo (serve_all repo verify s rs) u e ≡ true
      → d ≡ e
  serve_all-is_approved s rs u d e hu proper unsigned one =
      serve_all-HasOneTrusted s rs u hu proper unsigned one d e
