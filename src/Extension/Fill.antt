-- ===== src/Extension/Fill.antt =====
-- packages/extension/src/{phishing,matcher,classify,autofill}.ts: what may be written into a page.
-- `new URL`, `toLowerCase` and `localeCompare` are the runtime's: they are the fields of `Runtime`.
pub mod Guarded
pub mod Matches
pub mod Analysis
mod Tests
use Prim.Native.String
use vault_keep.Base.{
  ℕ, zero, suc, ◌+◌, Option, none, some, Bool, true, false, not, ◌&&◌, ◌||◌, if◌then◌else◌, List,
  [], ◌∷◌, ◌++◌, map, String, ◌<>◌, truthy, str_eq, ltb, ◌==◌, any, is_some, or_else, set,
  get_elem?, strip_prefix, find_index, filter,
}

pub record Url : Type 0 where
  pub hostname : String
  pub protocol : String

pub record Runtime : Type 0 where
  -- `new URL(s)`, none where it throws
  pub parse_url : String → Option Url
  pub to_lower : String → String
  -- `a.localeCompare(b) <= 0`
  pub locale_le : String → String → Bool

pub record Credential : Type 0 where
  pub id : String
  pub title : String
  pub username : Option String
  pub password : Option String
  pub url : Option String

-- An optional text is false where it is missing and where it is empty.
abbrev pub present : Option String → Bool
present none = false
present (some s) = truthy s

pub data Safety : Type 0 where
  safe : Safety
  unsafe : (reason : String) → Safety

abbrev pub is_safe : Safety → Bool
is_safe safe = true
is_safe (unsafe reason) = false

abbrev pub compare_urls : Option Url → Option Url → Safety
compare_urls (some stored) (some current) =
    if not (str_eq stored.hostname current.hostname)
    then unsafe ("domain mismatch: stored " <> (stored.hostname <> (", page " <> current.hostname)))
    else if not (str_eq current.protocol "https:")
    then unsafe "page is not HTTPS"
    else safe
compare_urls none _ = unsafe "unparseable URL"
compare_urls (some stored) none = unsafe "unparseable URL"

unfoldable pub is_autofill_safe : Runtime → String → String → Safety
is_autofill_safe rt stored_url current_origin =
    compare_urls (rt.parse_url stored_url) (rt.parse_url current_origin)

pub record Match : Type 0 where
  pub credential : Credential
  pub score : ℕ

abbrev pub one_if : Bool → ℕ
one_if b = if b then 1 else 0

unfoldable pub score_of : Credential → ℕ
score_of c = 1 + one_if (present c.username) + one_if (present c.password)

-- `if (!c.url) continue` and the guard
unfoldable pub may_offer : Runtime → String → Credential → Bool
may_offer rt page_origin c =
    present c.url && is_safe (is_autofill_safe rt (or_else "" c.url) page_origin)

-- `b.score - a.score || a.credential.title.localeCompare(b.credential.title)` is at most 0
unfoldable pub goes_before : Runtime → Match → Match → Bool
goes_before rt a b =
    ltb b.score a.score
    || (a.score == b.score) && rt.locale_le a.credential.title b.credential.title

-- The stable sort by that comparison.
unfoldable pub insert : Runtime → Match → List Match → List Match
insert rt m [] = m ∷ []
insert rt m (x ∷ xs) =
    let rest = insert rt m xs in if goes_before rt m x then m ∷ x ∷ xs else x ∷ rest

unfoldable pub sort : Runtime → List Match → List Match
sort rt [] = []
sort rt (m ∷ ms) = insert rt m (sort rt ms)

abbrev pub scored : Credential → Match
scored c = record { credential = c; score = score_of c }

unfoldable pub match_credentials : Runtime → List Credential → String → List Match
match_credentials rt creds page_origin =
    sort rt (map scored (filter (may_offer rt page_origin) creds))

pub record InputDescriptor : Type 0 where
  pub type_ : String
  pub name : Option String
  pub id : Option String
  pub autocomplete : Option String
  pub placeholder : Option String
  pub aria_label : Option String

pub data FieldKind : Type 0 where
  username password email otp unknown : FieldKind

abbrev pub username_hints : List String
username_hints = "user" ∷ "login" ∷ "account" ∷ "userid" ∷ "uname" ∷ []

abbrev pub email_hints : List String
email_hints = "email" ∷ "e-mail" ∷ []

abbrev pub otp_hints : List String
otp_hints = "otp" ∷ "totp" ∷ "2fa" ∷ "mfa" ∷ "onetime" ∷ "one-time" ∷ "code" ∷ []

-- `.filter(Boolean)` of optional texts
abbrev pub kept : List (Option String) → List String
kept [] = []
kept (none ∷ ss) = kept ss
kept (some s ∷ ss) = if truthy s then s ∷ kept ss else kept ss

-- `.join(" ")`
abbrev pub join : List String → String
join [] = ""
join (s ∷ []) = s
join (s ∷ t ∷ ss) = s <> (" " <> join (t ∷ ss))

abbrev pub haystack : Runtime → InputDescriptor → String
haystack rt d =
    rt.to_lower (join (kept (d.name ∷ d.id ∷ d.autocomplete ∷ d.placeholder ∷ d.aria_label ∷ [])))

-- `h.includes(k)`
abbrev pub includes : String → String → Bool
includes String.[] k = is_some (strip_prefix k "")
includes (String.◌∷◌ c h) k =
    let rest = includes h k in is_some (strip_prefix k (String.◌∷◌ c h)) || rest

abbrev pub hinted : Runtime → InputDescriptor → FieldKind
hinted rt d =
    let h = haystack rt d in
    if any (includes h) otp_hints
    then otp
    else if any (includes h) email_hints
    then email
    else if any (includes h) username_hints
    then username
    else unknown

unfoldable pub classify_field : Runtime → InputDescriptor → FieldKind
classify_field rt d =
    let type_ = rt.to_lower d.type_ in
    let ac = rt.to_lower (or_else "" d.autocomplete) in
    if str_eq type_ "password" || (str_eq ac "current-password" || str_eq ac "new-password")
    then password
    else if str_eq ac "username"
    then username
    else if str_eq ac "email" || str_eq type_ "email"
    then email
    else if str_eq ac "one-time-code"
    then otp
    else hinted rt d

pub record FormField : Type 0 where
  pub ref : String
  pub input : InputDescriptor

pub record TypedField : Type 0 where
  pub ref : String
  pub kind : FieldKind

pub record AnalyzedForm : Type 0 where
  pub fields : List TypedField
  pub has_password : Bool

abbrev pub is_password_kind : FieldKind → Bool
is_password_kind password = true
is_password_kind _ = false

abbrev pub is_password : TypedField → Bool
is_password f = is_password_kind f.kind

-- One turn of the walk back from the password: a lone unknown field is the username; the rest of
-- the walk is `further`.
abbrev pub walk_kind : List TypedField → ℕ → String → FieldKind → List TypedField → List TypedField
walk_kind typed i ref unknown further = set typed i (record { ref = ref; kind = username })
walk_kind typed i ref username further = typed
walk_kind typed i ref email further = typed
walk_kind typed i ref password further = further
walk_kind typed i ref otp further = further

abbrev pub walk_at : List TypedField → ℕ → Option TypedField → List TypedField → List TypedField
walk_at typed i none further = further
walk_at typed i (some f) further = walk_kind typed i f.ref f.kind further

-- `for (let i = n - 1; i >= 0; i--)`
unfoldable pub walk_back : List TypedField → ℕ → List TypedField
walk_back typed zero = typed
walk_back typed (suc i) =
    let further = walk_back typed i in walk_at typed i (get_elem? typed i) further

abbrev pub relabel : List TypedField → Option ℕ → AnalyzedForm
relabel typed none = record { fields = typed; has_password = false }
relabel typed (some i) = record { fields = walk_back typed i; has_password = true }

abbrev pub typed_as : Runtime → FormField → TypedField
typed_as rt f = record { ref = f.ref; kind = classify_field rt f.input }

unfoldable pub analyze_form : Runtime → List FormField → AnalyzedForm
analyze_form rt fields =
    let typed = map (typed_as rt) fields in relabel typed (find_index is_password typed)

pub record Write : Type 0 where
  pub ref : String
  pub value : String

pub data FillPlan : Type 0 where
  blocked : (reason : String) → FillPlan
  fill : (writes : List Write) → FillPlan

-- What goes into a field of the kind.
abbrev pub value_for : Credential → FieldKind → Option String
value_for c username = c.username
value_for c email = c.username
value_for c password = c.password
value_for c otp = none
value_for c unknown = none

-- The write of one field, if its value is there and not empty.
abbrev pub write_field : String → Option String → List Write
write_field ref none = []
write_field ref (some v) = if truthy v then record { ref = ref; value = v } ∷ [] else []

unfoldable pub writes_for : Credential → List TypedField → List Write
writes_for c [] = []
writes_for c (f ∷ fs) = write_field f.ref (value_for c f.kind) ++ writes_for c fs

abbrev pub plan_writes : List Write → FillPlan
plan_writes [] = blocked "no matching fields to fill"
plan_writes (w ∷ ws) = fill (w ∷ ws)

abbrev pub plan_safe : AnalyzedForm → Credential → Safety → FillPlan
plan_safe form c (unsafe reason) = blocked reason
plan_safe form c safe = plan_writes (writes_for c form.fields)

unfoldable pub plan_fill : Runtime → AnalyzedForm → Credential → String → FillPlan
plan_fill rt form c page_origin =
    if not (present c.url)
    then blocked "credential has no associated URL"
    else plan_safe form c (is_autofill_safe rt (or_else "" c.url) page_origin)
