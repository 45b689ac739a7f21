-- ===== src/Desktop/Health/Tests.antt =====
-- Reports of small vaults, with a toy hash.
use vault_keep.Base.{
  ℕ, Option, none, some, Bool, true, false, if◌then◌else◌, List, [], ◌∷◌, map, String, ◌<>◌, str_eq,
  ok, throw, ◌≡◌, refl, split_on, strip_prefix,
}
use vault_keep.Base.Dict.{get, put}
use vault_keep.Desktop.Health.{
  Runtime, VaultItem, ItemHealth, RangeClient, HealthReport, passwords, with_password, vault_health,
  check_items, breach_count, look_up, count_usage, is_weak_password, classes, is_repeated,
  split_lines,
}
use vault_keep.Desktop.Health.Requests.{vault_health-prefixes}
use vault_keep.Desktop.Health.Offline.{
  Matches, IsLocal, IsUnknown, is_none, first_prefix, vault_health-offline,
}

abbrev toy : Runtime
toy = record {
  sha1_hex_upper = λ pw. "AB12C" <> pw;
  trim = λ s. s;
  to_upper = λ s. s;
  to_number = λ s. if str_eq s "12" then some 12 else none;
  to_locale_string = λ n. "12";
}

abbrev login : String → String → VaultItem
login id pw = record { id = id; title = "Mail"; password = some pw }

abbrev vault : List VaultItem
vault =
    login "1" "hunter2hunter2"
    ∷ login "2" "aaaaaaaaaaaaaaaa"
    ∷ login "3" "hunter2hunter2"
    ∷ record { id = "4"; title = "Note"; password = none }
    ∷ []

abbrev other_vault : List VaultItem
other_vault = login "5" "x" ∷ login "6" "y" ∷ login "7" "z" ∷ []

abbrev mirror : RangeClient
mirror asked prefix = ok "hunter2hunter2:12\r\nother:1"

abbrev offline : RangeClient
offline asked prefix = throw "range 503"

abbrev counts : HealthReport → List (Option ℕ × Bool × Bool)
counts r = map (λ (i : ItemHealth). (i.breach_count, i.reused, i.weak)) r.items

asked_once : (vault_health toy mirror vault "now").1 ≡ "AB12C" ∷ []
unfolding vault_health check_items breach_count look_up count_usage get put
asked_once = refl

found_breaches :
    counts (vault_health toy mirror vault "now").0
    ≡ (some 12, true, false) ∷ (some 0, false, true) ∷ (some 12, true, false) ∷ []
unfolding vault_health check_items breach_count look_up count_usage get put is_weak_password classes
    is_repeated split_lines split_on strip_prefix
found_breaches = refl

weak_reason : is_weak_password "aaaaaaaaaaaaaaaa" ≡ some "single repeated character"
unfolding is_weak_password classes is_repeated
weak_reason = refl

vault_health-prefixes_example :
    ((vault_health toy mirror (login "1" "p" ∷ login "2" "q" ∷ login "3" "p" ∷ []) "now").1
      ≡ (vault_health toy mirror other_vault "now").1)
    × ((vault_health toy mirror
          (login "1" "p" ∷ login "2" "q" ∷ login "3" "p" ∷ [])
          "now").0.breach_check_available
        ≡ (vault_health toy mirror other_vault "now").0.breach_check_available)
vault_health-prefixes_example =
    vault_health-prefixes toy mirror (login "1" "p" ∷ login "2" "q" ∷ login "3" "p" ∷ [])
      other_vault "now" refl

vault_health-offline_example :
    Matches
      (λ it pw h. IsLocal (passwords toy (with_password vault)) it pw h × IsUnknown toy it pw h)
      (with_password vault)
      (vault_health toy offline vault "now").0.items
    × ((vault_health toy offline vault "now").0.breach_check_available
        ≡ is_none toy (with_password vault))
    × ((vault_health toy offline vault "now").1 ≡ first_prefix toy (with_password vault))
vault_health-offline_example =
    vault_health-offline toy offline vault "now" (λ pw. ("range 503", refl))
