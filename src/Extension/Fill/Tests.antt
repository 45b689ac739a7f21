-- ===== src/Extension/Fill/Tests.antt =====
-- A login form on mail.example, and a look-alike of it.
use mathlib.Core.List.{Perm}
use vault_keep.Base.{
  Option, none, some, true, List, [], ◌∷◌, ◌≡◌, ◌≢◌, refl, String, str_eq, if◌then◌else◌, or_else,
  map, filter, All, any, strip_prefix,
}
use vault_keep.Extension.Fill.{
  Runtime, Credential, is_autofill_safe, Match, match_credentials, may_offer, scored,
  InputDescriptor, FormField, AnalyzedForm, username, password, otp, classify_field, analyze_form,
  walk_back, Write, fill, blocked, plan_fill, writes_for, goes_before, sort, insert, score_of,
  typed_as, is_password,
}
use vault_keep.Extension.Fill.Guarded.{IsSecure, IsIntended, plan_fill-fill}
use vault_keep.Extension.Fill.Matches.{BestFirst, match_credentials_lem}
use vault_keep.Extension.Fill.Analysis.{Relabelled, analyze_form_lem}

-- A runtime that knows two addresses, and writes everything in lower case already.
abbrev toy : Runtime
toy = record {
  parse_url = λ s.
      if str_eq s "https://mail.example"
      then some (record { hostname = "mail.example"; protocol = "https:" })
      else if str_eq s "https://mai1.example"
      then some (record { hostname = "mai1.example"; protocol = "https:" })
      else none;
  to_lower = λ s. s;
  locale_le = λ s t. true;
}

abbrev mail : Credential
mail = record {
  id = "1";
  title = "Mail";
  username = some "ann";
  password = some "pw";
  url = some "https://mail.example";
}

abbrev half : Credential
half = record {
  id = "2";
  title = "Half";
  username = none;
  password = some "pw2";
  url = some "https://mail.example";
}

abbrev look_alike : Credential
look_alike = record {
  id = "3";
  title = "Other";
  username = none;
  password = some "pw3";
  url = some "https://mai1.example";
}

abbrev input : String → Option String → InputDescriptor
input type_ name = record {
  type_ = type_;
  name = name;
  id = none;
  autocomplete = none;
  placeholder = none;
  aria_label = none;
}

abbrev login_form : List FormField
login_form =
    record { ref = "a"; input = input "text" (some "field1") }
    ∷ record { ref = "b"; input = input "text" (some "otp") }
    ∷ record { ref = "c"; input = input "password" none }
    ∷ []

analyzed : analyze_form toy login_form ≡ record {
  fields =
      record { ref = "a"; kind = username }
      ∷ record { ref = "b"; kind = otp }
      ∷ record { ref = "c"; kind = password }
      ∷ [];
  has_password = true;
}
unfolding analyze_form classify_field walk_back strip_prefix
analyzed = refl

abbrev form : AnalyzedForm
form = record {
  fields =
      record { ref = "a"; kind = username }
      ∷ record { ref = "b"; kind = otp }
      ∷ record { ref = "c"; kind = password }
      ∷ [];
  has_password = true;
}

abbrev writes : List Write
writes = record { ref = "a"; value = "ann" } ∷ record { ref = "c"; value = "pw" } ∷ []

planned : plan_fill toy form mail "https://mail.example" ≡ fill writes
unfolding plan_fill is_autofill_safe writes_for
planned = refl

phished :
    plan_fill toy form mail "https://mai1.example"
    ≡ blocked "domain mismatch: stored mail.example, page mai1.example"
unfolding plan_fill is_autofill_safe writes_for
phished = refl

best_first :
    match_credentials toy (half ∷ look_alike ∷ mail ∷ []) "https://mail.example"
    ≡ scored mail ∷ scored half ∷ []
unfolding match_credentials may_offer is_autofill_safe goes_before sort insert score_of
best_first = refl

plan_fill-fill_example :
    IsSecure toy "https://mail.example" "https://mail.example"
    × (writes ≢ [])
    × All (IsIntended form.fields mail) writes
plan_fill-fill_example = plan_fill-fill toy form mail "https://mail.example" writes planned

match_credentials_lem_example :
    Perm
      (match_credentials toy (half ∷ look_alike ∷ mail ∷ []) "https://mail.example")
      (map scored (filter (may_offer toy "https://mail.example") (half ∷ look_alike ∷ mail ∷ [])))
    × BestFirst (match_credentials toy (half ∷ look_alike ∷ mail ∷ []) "https://mail.example")
    × All
        (λ (m : Match). IsSecure toy (or_else "" m.credential.url) "https://mail.example")
        (match_credentials toy (half ∷ look_alike ∷ mail ∷ []) "https://mail.example")
match_credentials_lem_example =
    match_credentials_lem toy (half ∷ look_alike ∷ mail ∷ []) "https://mail.example"

analyze_form_lem_example :
    Relabelled (map (typed_as toy) login_form) (analyze_form toy login_form).fields
    × ((analyze_form toy login_form).has_password ≡ any is_password (map (typed_as toy) login_form))
analyze_form_lem_example = analyze_form_lem toy login_form
