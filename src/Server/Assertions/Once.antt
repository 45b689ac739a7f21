-- ===== src/Server/Assertions/Once.antt =====
-- Answered challenges, through any calls of the service.
use vault_keep.Base.{
  ℕ, ◌+◌, ◌≤◌, Option, none, some, Bool, true, false, ◌||◌, not, if◌then◌else◌, List, [], ◌∷◌,
  String, str_eq, eq_iff, Thrown, ok, ltb, ◌≡◌, ◌≢◌, ◌∙◌, ap, sym, subst, refl, arith, Bool-cases,
  inl, inr, All,
}
use vault_keep.Base.Dict.{get, put, get-put}
use vault_keep.Server.Devices.{DeviceRecord, DeviceRepository}
use vault_keep.Server.Assertions.{
  ChallengeRecord, ttl_ms, Challenges, key, create_challenge, spent, checked, verify_found,
  verify_assertion, Call, challenging, asserting, serve, serve_all,
}

-- What an accepted answer has shown.
pub record IsAnswered {S : Type 0} (devices : DeviceRepository S)
    (verify_message : String → String → String → Thrown Bool) (s : S) (store : Challenges) (now : ℕ)
    (user device challenge signature : String) : Type 0 where
  pub rec : ChallengeRecord
  pub enrolled : DeviceRecord
  pub found : get (key user device) store ≡ some rec
  pub unused : rec.used ≡ false
  pub issued : rec.challenge ≡ challenge
  pub in_time : now ≤ rec.expires_at
  pub device_found : devices.get s user device ≡ some enrolled
  pub trusted : enrolled.approved ≡ true
  pub signed : verify_message enrolled.signing_public_key challenge signature ≡ ok true

false-ne-true : ok false ≡ ok true → ⊥
false-ne-true h = cc

-- This challenge cannot be answered: whatever is stored under the key is spent or is another challenge.
abbrev IsSpent : String → String → Challenges → Type 0
IsSpent k challenge store =
    (rec : ChallengeRecord) → get k store ≡ some rec → rec.used ≡ false → rec.challenge ≢ challenge

-- The call does not issue this challenge.
abbrev pub IsNotIssued : {S : Type 0} → String → Call S → Type 0
IsNotIssued challenge (challenging now random user device) = random ≢ challenge
IsNotIssued challenge (asserting s now user device given signature) = Unit

some_inj : {A : Type 0} {a b : A} → some a ≡ some b → a ≡ b
some_inj h = cc

true-ne-false : true ≡ false → ⊥
true-ne-false h = cc

IsSpent-put :
    (k j challenge : String) (rec : ChallengeRecord) (store : Challenges)
    → (rec.used ≡ false → rec.challenge ≢ challenge)
    → IsSpent k challenge store
    → IsSpent k challenge (put j rec store)
IsSpent-put k j challenge rec store h spent r found unused is = elim (Bool-cases (str_eq j k)) [
  | inl e ↦
      let same = some_inj (
        sym (ap (λ b. if b then some rec else get k store) e)
        ∙ sym (get-put j k rec store)
        ∙ found) in
      h (ap (λ (x : ChallengeRecord). x.used) same ∙ unused)
        (ap (λ (x : ChallengeRecord). x.challenge) same ∙ is)
  | inr e ↦
      spent r
        (sym (ap (λ b. if b then some rec else get k store) e)
          ∙ sym (get-put j k rec store)
          ∙ found)
        unused is
]

get-put_self :
    (k : String) (rec : ChallengeRecord) (store : Challenges) → get k (put k rec store) ≡ some rec
get-put_self k rec store =
    get-put k k rec store ∙ ap (λ b. if b then some rec else get k store) ((eq_iff k k).1 refl)

module _ {S : Type 0} (devices : DeviceRepository S)
    (verify_message : String → String → String → Thrown Bool) where
  checked-true :
      (s : S) (found : Option DeviceRecord) (challenge signature : String)
      → checked devices verify_message s found challenge signature ≡ ok true
      → (d : DeviceRecord) × (found ≡ some d)
        × (d.approved ≡ true)
        × (verify_message d.signing_public_key challenge signature ≡ ok true)
  checked-true s none challenge signature h = absurd (false-ne-true h)
  checked-true s (some d) challenge signature h = elim (Bool-cases d.approved) [
    | inl e ↦ (d, refl, e, rw e at h)
    | inr e ↦ absurd (false-ne-true (rw e at h))
  ]

  unmet : (u m l : Bool) → (u || not m || l) ≡ false → (u ≡ false) × (m ≡ true) × (l ≡ false)
  unmet false true false h = (refl, refl, refl)
  unmet false true true h = cc
  unmet false false l h = cc
  unmet true m l h = cc

  on_time : (limit now : ℕ) → ltb limit now ≡ false → now ≤ limit
  on_time limit now h = ground arith

  -- An answer that is accepted found a record that is good, and leaves it spent.
  verify_found-true :
      (s : S) (store : Challenges) (now : ℕ) (user device challenge signature : String)
      (found : Option ChallengeRecord)
      → get (key user device) store ≡ found
      → (verify_found devices verify_message s store now user device found challenge signature).1
        ≡ ok true
      → (proof : IsAnswered devices verify_message s store now user device challenge signature)
        × ((verify_found devices verify_message s store now user device found challenge signature).0
            ≡ put (key user device) (spent proof.rec) store)
  verify_found-true s store now user device challenge signature none is h = absurd (false-ne-true h)
  verify_found-true s store now user device challenge signature (some rec) is h =
      elim (Bool-cases
        (rec.used || not (str_eq rec.challenge challenge) || ltb rec.expires_at now)) [
          | inl e ↦ absurd (false-ne-true (rw e at h))
          | inr e ↦
              let (unused, same, late) =
                unmet rec.used (str_eq rec.challenge challenge) (ltb rec.expires_at now) e in
              let (d, enrolled, trusted, signed) =
                checked-true s (devices.get s user device) challenge signature (rw e at h) in
              (
                record {
                  rec = rec;
                  enrolled = d;
                  found = is;
                  unused = unused;
                  issued = (eq_iff rec.challenge challenge).0 same;
                  in_time = on_time rec.expires_at now late;
                  device_found = enrolled;
                  trusted = trusted;
                  signed = signed;
                },
                rw e refl,
              )
        ]

  IsSpent-found :
      (k challenge : String) (s : S) (store : Challenges) (now : ℕ)
      (user device given signature : String) (found : Option ChallengeRecord)
      → IsSpent k challenge store
      → IsSpent k challenge
          (verify_found devices verify_message s store now user device found given signature).0
  IsSpent-found k challenge s store now user device given signature none h = h
  IsSpent-found k challenge s store now user device given signature (some rec) h =
      elim (Bool-cases (rec.used || not (str_eq rec.challenge given) || ltb rec.expires_at now)) [
        | inl e ↦ subst (IsSpent k challenge) (rw e refl) h
        | inr e ↦ subst (IsSpent k challenge) (rw e refl) (
            IsSpent-put k (key user device) challenge (spent rec) store
              (λ unused. absurd (true-ne-false unused)) h)
      ]

  IsSpent-serve_all :
      (k challenge : String) (calls : List (Call S)) (store : Challenges)
      → All (IsNotIssued challenge) calls
      → IsSpent k challenge store
      → IsSpent k challenge (serve_all devices verify_message store calls)
  unfolding serve serve_all create_challenge verify_assertion
  IsSpent-serve_all k challenge [] store new h = h
  IsSpent-serve_all k challenge (challenging now random user device ∷ calls) store (new, later) h =
      let issued : ChallengeRecord = record {
        challenge = random;
        expires_at = now + ttl_ms;
        used = false;
      } in
      IsSpent-serve_all k challenge calls (put (key user device) issued store) later
        (IsSpent-put k (key user device) challenge issued store (λ unused. new) h)
  IsSpent-serve_all k challenge (asserting s now user device given signature ∷ calls) store
        (new, later) h =
      IsSpent-serve_all k challenge calls
        (verify_found devices verify_message s store now user device (get (key user device) store)
          given signature).0
        later
        (IsSpent-found k challenge s store now user device given signature
          (get (key user device) store) h)

  -- An answer to a challenge is accepted only if the challenge is the one last issued for this device, is
  -- not used and has not expired, and if the device is enrolled and approved and its key signed the
  -- challenge; whatever is called afterwards, as long as the same challenge is not issued again, no second
  -- answer of this device to it is accepted.
  pub verify_assertion-IsAnswered :
      (s : S) (store : Challenges) (now : ℕ) (user device challenge signature : String)
      → (verify_assertion devices verify_message s store now user device challenge signature).1
        ≡ ok true
      → (calls : List (Call S)) → All (IsNotIssued challenge) calls
      → (t : S) (later : ℕ) (replay : String)
      → IsAnswered devices verify_message s store now user device challenge signature
        × ((verify_assertion devices verify_message t
              (serve_all devices verify_message
                (verify_assertion devices verify_message s store now user device challenge
                  signature).0
                calls)
              later
              user
              device
              challenge
              replay).1
            ≢ ok true)
  unfolding verify_assertion
  verify_assertion-IsAnswered s store now user device challenge signature h calls new t later
        replay =
      let k = key user device in
      let (proof, after) =
        verify_found-true s store now user device challenge signature (get k store) refl h in
      let used : IsSpent k challenge (put k (spent proof.rec) store) = λ r found unused is.
        let same = some_inj (sym (get-put_self k (spent proof.rec) store) ∙ found) in
        true-ne-false (ap (λ (x : ChallengeRecord). x.used) same ∙ unused) in
      let still =
        IsSpent-serve_all k challenge calls _ new (subst (IsSpent k challenge) (sym after) used) in
      (
        proof,
        λ again.
            let (second, _) =
              verify_found-true t _ later user device challenge replay (get k _) refl again in
            still second.rec second.found second.unused second.issued,
      )
