-- ===== src/Server/Accounts/Rows.antt =====
-- The rows of the file: which of them the two lookups find after each change.
use vault_keep.Base.{
  Option, none, some, true, false, if◌then◌else◌, List, [], ◌∷◌, ◌++◌, String, ◌≡◌, refl, arith,
  str_eq, eq_iff, Bool-cases, inl, inr, subst, sym,
}
use vault_keep.Base.Keyed.{find_key, find_key-push, string_eq}
use vault_keep.Server.Accounts.{
  Runtime, AccountRecord, id_of, with_hash, update_row, email_key, find_by_email,
}

-- No two rows have the same id.
abbrev pub Distinct : List AccountRecord → Type 0
Distinct [] = Unit
Distinct (a ∷ s) = (find_key id_of a.id s ≡ none) × Distinct s

abbrev pub rehash : String → String → Option AccountRecord → Option AccountRecord
rehash id hash none = none
rehash id hash (some a) = if str_eq a.id id then some (with_hash hash a) else some a

module _ (rt : Runtime) where
  pub find_email-push :
      (s : List AccountRecord) (rec : AccountRecord) (email : String)
      → find_by_email rt s rec.email ≡ none
      → find_by_email rt (s ++ rec ∷ []) email ≡ (
          if str_eq (rt.to_lower rec.email) (rt.to_lower email)
          then some rec
          else find_by_email rt s email)
  unfolding find_by_email
  find_email-push s rec email fresh = find_key-push (email_key rt) (rt.to_lower email) s rec fresh

  rehash-absent :
      (s : List AccountRecord) (id hash email : String)
      → find_key id_of id s ≡ none
      → rehash id hash (find_by_email rt s email) ≡ find_by_email rt s email
  unfolding find_by_email
  rehash-absent [] id hash email h = refl
  rehash-absent (a ∷ s) id hash email h =
      ground (arith, λ (p : find_key id_of id s ≡ none). rehash-absent s id hash email p)

  updated :
      (a : AccountRecord) (s : List AccountRecord) (id hash email : String)
      → str_eq a.id id ≡ true
      → rehash id hash (find_by_email rt s email) ≡ find_by_email rt s email
      → find_by_email rt (with_hash hash a ∷ s) email
        ≡ rehash id hash (find_by_email rt (a ∷ s) email)
  unfolding find_by_email
  updated a s id hash email e h =
      elim (Bool-cases (str_eq (rt.to_lower a.email) (rt.to_lower email))) [
        | inl m ↦ rw (m, e) refl
        | inr m ↦ rw m (sym h)
      ]

  kept :
      (a : AccountRecord) (s t : List AccountRecord) (id hash email : String)
      → str_eq a.id id ≡ false
      → find_by_email rt t email ≡ rehash id hash (find_by_email rt s email)
      → find_by_email rt (a ∷ t) email ≡ rehash id hash (find_by_email rt (a ∷ s) email)
  unfolding find_by_email
  kept a s t id hash email e h =
      elim (Bool-cases (str_eq (rt.to_lower a.email) (rt.to_lower email))) [
        | inl m ↦ rw (m, e) refl
        | inr m ↦ rw m h
      ]

  -- The login finds the row it found before, with the new hash if it is the account's.
  pub find_email-update :
      (s : List AccountRecord) (id hash email : String)
      → Distinct s
      → find_by_email rt (update_row id hash s) email ≡ rehash id hash (find_by_email rt s email)
  unfolding find_by_email update_row
  find_email-update [] id hash email d = refl
  find_email-update (a ∷ s) id hash email (da, d) = elim (Bool-cases (str_eq a.id id)) [
    | inl e ↦ rw e (
        updated a s id hash email e (
          rehash-absent s id hash email
            (subst (λ u. find_key id_of u s ≡ none) ((eq_iff a.id id).0 e) da)))
    | inr e ↦
        rw e (kept a s (update_row id hash s) id hash email e (find_email-update s id hash email d))
  ]
