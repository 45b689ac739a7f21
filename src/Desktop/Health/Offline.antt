-- ===== src/Desktop/Health/Offline.antt =====
-- What the report says of reuse and weakness, and without the range client.
use vault_keep.Base.{
  ℕ, ◌+◌, Option, none, some, Bool, true, false, if◌then◌else◌, List, [], ◌∷◌, String, str_eq,
  eq_iff, throw, ◌≡◌, ◌∙◌, ap, subst, sym, refl, arith, ltb, or_else, is_some,
}
use vault_keep.Base.Dict.{Dict, get, put, get-put, get-nil}
use vault_keep.Desktop.Health.{
  Runtime, VaultItem, ItemHealth, RangeClient, Checks, no_checks, prefix_of, suffix_of, fill,
  look_up, breach_count, counted, health_of, check_items, with_password, passwords, count_usage,
  vault_health, is_weak_password, is_positive,
}

-- How often a text occurs.
abbrev pub occurrences : String → List String → ℕ
occurrences pw [] = 0
occurrences pw (x ∷ xs) = (if str_eq x pw then 1 else 0) + occurrences pw xs

-- The reports of the items, one by one.
abbrev pub Matches :
    (VaultItem → String → ItemHealth → Type 0)
    → List (VaultItem × String)
    → List ItemHealth
    → Type 0
Matches P [] [] = Unit
Matches P [] (h ∷ hs) = ⊥
Matches P (i ∷ is) [] = ⊥
Matches P ((it, pw) ∷ is) (h ∷ hs) = P it pw h × Matches P is hs

-- What is computed without the range client.
abbrev pub IsLocal : List String → VaultItem → String → ItemHealth → Type 0
IsLocal all it pw h =
    (h.id ≡ it.id)
    × (h.reused ≡ ltb 1 (occurrences pw all))
    × (h.weak ≡ is_some (is_weak_password pw))

get-count_usage :
    (pw : String) (pws : List String) (usage : Dict ℕ)
    → or_else 0 (get pw (count_usage pws usage)) ≡ or_else 0 (get pw usage) + occurrences pw pws
unfolding count_usage
get-count_usage pw [] usage = omega arith
get-count_usage pw (x ∷ xs) usage =
    let later = get-count_usage pw xs (put x (or_else 0 (get x usage) + 1) usage) in
    ground (arith, later, get-put x pw (or_else 0 (get x usage) + 1) usage, eq_iff x pw)

module _ (rt : Runtime) where
  check_items-Matches :
      (P : VaultItem → String → ItemHealth → Type 0) (usage : Dict ℕ)
      → ((it : VaultItem) (pw : String) (count : Option ℕ)
          → P it pw (health_of rt usage it pw count))
      → (ranges : RangeClient) (kept : List (VaultItem × String)) (st : Checks)
      → Matches P kept (check_items rt ranges usage st kept).1
  unfolding check_items
  check_items-Matches P usage h ranges [] st = tt
  check_items-Matches P usage h ranges ((it, pw) ∷ rest) st = (
    h it pw (counted rt ranges st pw).1,
    check_items-Matches P usage h ranges rest (counted rt ranges st pw).0,
  )

  -- Whatever the range client answers, or if it never does, each item with a password has its report, in
  -- the order of the items: it is marked reused just when another item has the same password, and weak just
  -- when the heuristic says so.
  pub vault_health-Matches :
      (ranges : RangeClient) (items : List VaultItem) (now : String)
      → Matches
          (IsLocal (passwords rt (with_password items)))
          (with_password items)
          (vault_health rt ranges items now).0.items
  unfolding vault_health
  vault_health-Matches ranges items now =
      let kept = with_password items in
      let pws = passwords rt kept in
      check_items-Matches (IsLocal pws) (count_usage pws [])
        (λ it pw count. (
          refl,
          ap (ltb 1) (
              get-count_usage pw pws []
              ∙ ap (λ (o : Option ℕ). or_else 0 o + occurrences pw pws) (get-nil pw)
              ∙ omega arith),
          refl,
        ))
        ranges kept no_checks

  -- An item whose breach count is not known.
  abbrev pub IsUnknown : VaultItem → String → ItemHealth → Type 0
  IsUnknown it pw h = (h.breached ≡ false) × (h.breach_count ≡ some 0)

  abbrev pub is_none : List (VaultItem × String) → Bool
  is_none [] = true
  is_none (_ ∷ _) = false

  abbrev pub first_prefix : List (VaultItem × String) → List String
  first_prefix [] = []
  first_prefix ((it, pw) ∷ _) = prefix_of rt pw ∷ []

  unavailable-state :
      (ranges : RangeClient) (usage : Dict ℕ) (kept : List (VaultItem × String)) (st : Checks)
      → st.available ≡ false
      → ((check_items rt ranges usage st kept).0 ≡ st)
        × Matches IsUnknown kept (check_items rt ranges usage st kept).1
  unfolding check_items
  unavailable-state ranges usage [] st h = (refl, tt)
  unavailable-state ranges usage ((it, pw) ∷ rest) st h =
      let here : counted rt ranges st pw ≡ (st, some 0) =
        ap (λ b. if b then breach_count rt ranges st pw else (st, some 0)) h in
      let (same, more) = unavailable-state ranges usage rest st h in
      (
        ap (λ c. (check_items rt ranges usage c.0 rest).0) here ∙ same,
        subst
            (λ (c : Checks × Option ℕ).
              ((is_positive c.1 ≡ false) × (c.1 ≡ some 0))
              × Matches IsUnknown rest (check_items rt ranges usage c.0 rest).1)
            (sym here) ((refl, refl), more),
      )

  -- The first request, when it is not answered.
  refused_count :
      (ranges : RangeClient) (pw e : String)
      → ranges [] (prefix_of rt pw) ≡ throw e
      → counted rt ranges no_checks pw ≡ (fill rt no_checks (prefix_of rt pw) (throw e), some 0)
  unfolding breach_count look_up get put
  refused_count ranges pw e h =
      let p = prefix_of rt pw in
      let count = λ (st : Checks).
        or_else (some 0) (get (suffix_of rt pw) (or_else [] (get p st.prefix_cache))) in
      ap (λ r. (fill rt no_checks p r, count (fill rt no_checks p r))) h
      ∙ ap
          (λ b. (
            fill rt no_checks p (throw e),
            or_else (some 0) (get (suffix_of rt pw) (or_else [] (if b then some [] else none))),
          ))
          ((eq_iff p p).1 refl)

  offline-counts :
      (ranges : RangeClient) (usage : Dict ℕ) (kept : List (VaultItem × String))
      → ((pw : String) → (e : String) × (ranges [] (prefix_of rt pw) ≡ throw e))
      → Matches IsUnknown kept (check_items rt ranges usage no_checks kept).1
        × ((check_items rt ranges usage no_checks kept).0.available ≡ is_none kept)
        × ((check_items rt ranges usage no_checks kept).0.asked ≡ first_prefix kept)
  unfolding check_items
  offline-counts ranges usage [] h = (tt, refl, refl)
  offline-counts ranges usage ((it, pw) ∷ rest) h =
      let (e, refused) = h pw in
      let here = refused_count ranges pw e refused in
      let after = fill rt no_checks (prefix_of rt pw) (throw e) in
      let (same, more) = unavailable-state ranges usage rest after refl in
      (
        subst
            (λ (c : Checks × Option ℕ).
              ((is_positive c.1 ≡ false) × (c.1 ≡ some 0))
              × Matches IsUnknown rest (check_items rt ranges usage c.0 rest).1)
            (sym here) ((refl, refl), more),
        ap (λ (c : Checks × Option ℕ). (check_items rt ranges usage c.0 rest).0.available) here
            ∙ ap (λ (st : Checks). st.available) same,
        ap (λ (c : Checks × Option ℕ). (check_items rt ranges usage c.0 rest).0.asked) here
            ∙ ap (λ (st : Checks). st.asked) same,
      )

  Matches-both :
      (P Q : VaultItem → String → ItemHealth → Type 0) (kept : List (VaultItem × String))
      (hs : List ItemHealth)
      → Matches P kept hs
      → Matches Q kept hs
      → Matches (λ it pw h. P it pw h × Q it pw h) kept hs
  Matches-both P Q [] [] p q = tt
  Matches-both P Q [] (h ∷ hs) p q = p
  Matches-both P Q (i ∷ is) [] p q = p
  Matches-both P Q ((it, pw) ∷ is) (h ∷ hs) (p, ps) (q, qs) = ((p, q), Matches-both P Q is hs ps qs)

  -- When the range client fails at its first request, there is no second one, and the check is reported as
  -- not available if any item has a password. Each item with a password still has its report, with no
  -- breach found: reused just when another item has the same password, and weak by the heuristic.
  pub vault_health-offline :
      (ranges : RangeClient) (items : List VaultItem) (now : String)
      → ((pw : String) → (e : String) × (ranges [] (prefix_of rt pw) ≡ throw e))
      → Matches
          (λ it pw h. IsLocal (passwords rt (with_password items)) it pw h × IsUnknown it pw h)
          (with_password items)
          (vault_health rt ranges items now).0.items
        × ((vault_health rt ranges items now).0.breach_check_available
            ≡ is_none (with_password items))
        × ((vault_health rt ranges items now).1 ≡ first_prefix (with_password items))
  unfolding vault_health
  vault_health-offline ranges items now h =
      let kept = with_password items in
      let pws = passwords rt kept in
      let (unknown, available, asked) = offline-counts ranges (count_usage pws []) kept h in
      (
        Matches-both (IsLocal pws) IsUnknown kept _ (vault_health-Matches ranges items now) unknown,
        available,
        asked,
      )
