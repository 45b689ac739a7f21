-- ===== src/Desktop/Health/Requests.antt =====
-- What the range client is asked for.
use vault_keep.Base.{
  ℕ, if◌then◌else◌, List, [], ◌∷◌, map, String, ◌≡◌, ◌∙◌, ap, sym, refl, Bool-cases, inl, inr,
}
use vault_keep.Base.Dict.{Dict}
use vault_keep.Desktop.Health.{
  Runtime, VaultItem, RangeClient, Checks, no_checks, prefix_of, look_up, breach_count, counted,
  check_items, with_password, passwords, count_usage, vault_health,
}

module _ (rt : Runtime) where
  -- The prefixes that may be asked for: those of the passwords, in the order of the items.
  abbrev pub prefixes : List VaultItem → List String
  prefixes items = map (prefix_of rt) (passwords rt (with_password items))

  -- A run over prefixes alone.
  abbrev ask_all : RangeClient → Checks → List String → Checks
  ask_all ranges st [] = st
  ask_all ranges st (p ∷ ps) =
      ask_all ranges (if st.available then look_up rt ranges st p else st) ps

  counted-state :
      (ranges : RangeClient) (st : Checks) (pw : String)
      → (counted rt ranges st pw).0
        ≡ (if st.available then look_up rt ranges st (prefix_of rt pw) else st)
  unfolding breach_count
  counted-state ranges st pw = elim (Bool-cases st.available) [
    | inl e ↦ rw e refl
    | inr e ↦ rw e refl
  ]

  check_items-ask_all :
      (ranges : RangeClient) (usage : Dict ℕ) (kept : List (VaultItem × String)) (st : Checks)
      → (check_items rt ranges usage st kept).0
        ≡ ask_all ranges st (map (prefix_of rt) (passwords rt kept))
  unfolding check_items
  check_items-ask_all ranges usage [] st = refl
  check_items-ask_all ranges usage ((it, pw) ∷ rest) st =
      check_items-ask_all ranges usage rest (counted rt ranges st pw).0
      ∙ ap (λ s. ask_all ranges s (map (prefix_of rt) (passwords rt rest)))
          (counted-state ranges st pw)

  -- Two vaults whose passwords have the same five-character prefixes, in the order of the items, make the
  -- same requests of the range client, whatever it answers, and are told the same of its availability.
  pub vault_health-prefixes :
      (ranges : RangeClient) (items others : List VaultItem) (now : String)
      → prefixes items ≡ prefixes others
      → ((vault_health rt ranges items now).1 ≡ (vault_health rt ranges others now).1)
        × ((vault_health rt ranges items now).0.breach_check_available
            ≡ (vault_health rt ranges others now).0.breach_check_available)
  unfolding vault_health
  vault_health-prefixes ranges items others now h =
      let kept = with_password items in
      let also = with_password others in
      let same =
        check_items-ask_all ranges (count_usage (passwords rt kept) []) kept no_checks
        ∙ ap (ask_all ranges no_checks) h
        ∙ sym (check_items-ask_all ranges (count_usage (passwords rt also) []) also no_checks) in
      (ap (λ (st : Checks). st.asked) same, ap (λ (st : Checks). st.available) same)
