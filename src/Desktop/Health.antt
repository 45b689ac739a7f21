-- ===== src/Desktop/Health.antt =====
-- packages/desktop/src/core/vault-health.ts: which passwords of a vault are breached, reused or weak.
-- SHA-1 in hexadecimal, `trim`, `toUpperCase`, `Number` (a whole number, or none for NaN) and
-- `toLocaleString` are the fields of `Runtime`. The range client is an argument that may answer
-- differently as requests go on: it is given the prefixes that were asked for before.
pub mod Requests
pub mod Offline
mod Tests
use Prim.Native.Char.{Char, code}
use Prim.Native.String
use vault_keep.Base.{
  utf16_length, ℕ, zero, suc, ◌+◌, Option, none, some, Bool, true, false, ◌&&◌, ◌||◌, not,
  if◌then◌else◌, ◌==◌, List, [], ◌∷◌, ◌++◌, map, String, ◌<>◌, str_eq, Thrown, ok, throw, ltb, leb,
  length, filter, or_else, truthy, is_some, split_on, strip_prefix,
}
use vault_keep.Base.Dict.{Dict, get, put}

pub record Runtime : Type 0 where
  pub sha1_hex_upper : String → String
  pub trim : String → String
  pub to_upper : String → String
  pub to_number : String → Option ℕ
  pub to_locale_string : ℕ → String

pub record VaultItem : Type 0 where
  pub id : String
  pub title : String
  pub password : Option String

pub record ItemHealth : Type 0 where
  pub id : String
  pub title : String
  pub breached : Bool
  -- none for NaN
  pub breach_count : Option ℕ
  pub reused : Bool
  pub weak : Bool
  pub reasons : List String

pub record Summary : Type 0 where
  pub total : ℕ
  pub breached : ℕ
  pub reused : ℕ
  pub weak : ℕ

pub record HealthReport : Type 0 where
  pub items : List ItemHealth
  pub checked_at : String
  pub breach_check_available : Bool
  pub summary : Summary

-- `range(prefix)`, after the requests that were made before
abbrev pub RangeClient : Type 0
RangeClient = List String → String → Thrown String

abbrev pub any_char : (ℕ → Bool) → String → Bool
any_char p String.[] = false
any_char p (String.◌∷◌ c s) = p (code c) || any_char p s

abbrev pub all_chars : (ℕ → Bool) → String → Bool
all_chars p String.[] = true
all_chars p (String.◌∷◌ c s) = p (code c) && all_chars p s

abbrev pub is_between : ℕ → ℕ → ℕ → Bool
is_between low high n = leb low n && leb n high

abbrev pub is_lower : ℕ → Bool
is_lower = is_between 97 122

abbrev pub is_upper : ℕ → Bool
is_upper = is_between 65 90

abbrev pub is_digit : ℕ → Bool
is_digit = is_between 48 57

abbrev pub is_other : ℕ → Bool
is_other n = not (is_lower n || is_upper n || is_digit n)

-- `Number(test)`
abbrev pub one_if : Bool → ℕ
one_if b = if b then 1 else 0

unfoldable pub classes : String → ℕ
classes pw =
    one_if (any_char is_lower pw)
    + one_if (any_char is_upper pw)
    + one_if (any_char is_digit pw)
    + one_if (any_char is_other pw)

-- What `.` does not match.
abbrev pub ends_line : ℕ → Bool
ends_line n = (n == 10) || (n == 13) || (n == 8232) || (n == 8233)

-- `/^(.)\1+$/`: a character past the basic plane is two different units.
unfoldable pub is_repeated : String → Bool
is_repeated String.[] = false
is_repeated (String.◌∷◌ c String.[]) = false
is_repeated (String.◌∷◌ c (String.◌∷◌ d s)) =
    not (ends_line (code c)) && ltb (code c) 65536 && all_chars (λ n. n == code c) (String.◌∷◌ d s)

abbrev pub starts_with_one : List String → String → Bool
starts_with_one [] s = false
starts_with_one (p ∷ ps) s = is_some (strip_prefix p s) || starts_with_one ps s

abbrev pub sequences : List String
sequences = "0123" ∷ "1234" ∷ "2345" ∷ "3456" ∷ "4567" ∷ "5678" ∷ "6789" ∷ "7890" ∷ []

unfoldable pub is_weak_password : String → Option String
is_weak_password pw =
    if ltb (utf16_length pw) 10
    then some "shorter than 10 characters"
    else if ltb (utf16_length pw) 14 && ltb (classes pw) 3
    then some "short and low-variety"
    else if is_repeated pw
    then some "single repeated character"
    else if starts_with_one sequences pw && ltb (utf16_length pw) 14
    then some "sequential digits"
    else none

-- An item with its password, when it has one that is not empty.
abbrev pub with_password : List VaultItem → List (VaultItem × String)
with_password [] = []
with_password (i ∷ is) = elim i.password [
  | none ↦ with_password is
  | some pw ↦ if truthy pw then (i, pw) ∷ with_password is else with_password is
]

-- `usage.set(pw, (usage.get(pw) ?? 0) + 1)`, for each
unfoldable pub count_usage : List String → Dict ℕ → Dict ℕ
count_usage [] usage = usage
count_usage (pw ∷ pws) usage = count_usage pws (put pw (or_else 0 (get pw usage) + 1) usage)

abbrev pub grow : Char → List String → List String
grow c [] = []
grow c (p ∷ ps) = String.◌∷◌ c p ∷ ps

abbrev pub starts_line : String → Bool
starts_line String.[] = false
starts_line (String.◌∷◌ c s) = code c == 10

-- `text.split(/\r?\n/)`
unfoldable pub split_lines : String → List String
split_lines String.[] = String.[] ∷ []
split_lines (String.◌∷◌ c s) =
    let rest = split_lines s in
    if code c == 10
    then String.[] ∷ rest
    else if (code c == 13) && starts_line s
    then rest
    else grow c rest

-- `s.slice(0, n)` and `s.slice(n)`, of a text in the basic plane
abbrev pub slice_to : ℕ → String → String
slice_to zero s = String.[]
slice_to (suc n) String.[] = String.[]
slice_to (suc n) (String.◌∷◌ c s) = String.◌∷◌ c (slice_to n s)

abbrev pub slice_from : ℕ → String → String
slice_from zero s = s
slice_from (suc n) String.[] = String.[]
slice_from (suc n) (String.◌∷◌ c s) = slice_from n s

abbrev pub first_piece : List String → String
first_piece [] = ""
first_piece (p ∷ ps) = p

abbrev pub Bucket : Type 0
Bucket = Dict (Option ℕ)

-- What the closure keeps, with the prefixes that were asked for, the last one first.
pub record Checks : Type 0 where
  pub available : Bool
  pub prefix_cache : Dict Bucket
  pub asked : List String

abbrev pub no_checks : Checks
no_checks = record { available = true; prefix_cache = []; asked = [] }

-- `count > 0`
abbrev pub is_positive : Option ℕ → Bool
is_positive none = false
is_positive (some n) = ltb 0 n

module _ (rt : Runtime) where
  -- `Number(count ?? 0)`
  abbrev pub count_in : List String → Option ℕ
  count_in (p ∷ q ∷ ps) = rt.to_number q
  count_in _ = some 0

  -- One line of an answer.
  abbrev pub add_line : String → Bucket → Bucket
  add_line line bucket =
      let pieces = split_on b':' line in
      if truthy (first_piece pieces)
      then put (rt.to_upper (rt.trim (first_piece pieces))) (count_in pieces) bucket
      else bucket

  abbrev pub add_lines : List String → Bucket → Bucket
  add_lines [] bucket = bucket
  add_lines (line ∷ lines) bucket = add_lines lines (add_line line bucket)

  abbrev pub prefix_of : String → String
  prefix_of pw = slice_to 5 (rt.sha1_hex_upper pw)

  abbrev pub suffix_of : String → String
  suffix_of pw = slice_from 5 (rt.sha1_hex_upper pw)

  abbrev pub fill : Checks → String → Thrown String → Checks
  fill st prefix (ok body) = record {
    available = st.available;
    prefix_cache = put prefix (add_lines (split_lines body) []) st.prefix_cache;
    asked = prefix ∷ st.asked;
  }
  fill st prefix (throw e) = record {
    available = false;
    prefix_cache = put prefix [] st.prefix_cache;
    asked = prefix ∷ st.asked;
  }

  -- The cached bucket, or one that is asked for.
  unfoldable pub look_up : RangeClient → Checks → String → Checks
  look_up ranges st prefix = elim (get prefix st.prefix_cache) [
    | some bucket ↦ st
    | none ↦ fill st prefix (ranges st.asked prefix)
  ]

  unfoldable pub breach_count : RangeClient → Checks → String → Checks × Option ℕ
  breach_count ranges st pw =
      let after = look_up ranges st (prefix_of pw) in
      (
        after,
        or_else (some 0) (get (suffix_of pw) (or_else [] (get (prefix_of pw) after.prefix_cache))),
      )

  abbrev pub counted : RangeClient → Checks → String → Checks × Option ℕ
  counted ranges st pw = if st.available then breach_count ranges st pw else (st, some 0)

  abbrev pub reason_if : Bool → String → List String
  reason_if b reason = if b then reason ∷ [] else []

  abbrev pub weak_reasons : Option String → List String
  weak_reasons none = []
  weak_reasons (some reason) = reason ∷ []

  abbrev pub health_of : Dict ℕ → VaultItem → String → Option ℕ → ItemHealth
  health_of usage it pw count =
      let weak_reason = is_weak_password pw in
      let reused = ltb 1 (or_else 0 (get pw usage)) in
      record {
        id = it.id;
        title = it.title;
        breached = is_positive count;
        breach_count = count;
        reused = reused;
        weak = is_some weak_reason;
        reasons =
            reason_if (is_positive count)
              ("found in known breaches (" <> (rt.to_locale_string (or_else 0 count) <> "×)"))
            ++ reason_if reused "same password used on another item"
            ++ weak_reasons weak_reason;
      }

  -- The loop over the items, and what the closure keeps after it.
  unfoldable pub check_items :
      RangeClient → Dict ℕ → Checks → List (VaultItem × String) → Checks × List ItemHealth
  check_items ranges usage st [] = (st, [])
  check_items ranges usage st ((it, pw) ∷ rest) =
      let checked = counted ranges st pw in
      let later = check_items ranges usage checked.0 rest in
      (later.0, health_of usage it pw checked.1 ∷ later.1)

  abbrev pub summary_of : List ItemHealth → Summary
  summary_of out = record {
    total = length out;
    breached = length (filter (λ (i : ItemHealth). i.breached) out);
    reused = length (filter (λ (i : ItemHealth). i.reused) out);
    weak = length (filter (λ (i : ItemHealth). i.weak) out);
  }

  abbrev pub passwords : List (VaultItem × String) → List String
  passwords = map λ p. p.1

  -- The report, and the prefixes that the range client was given, the last one first.
  unfoldable pub vault_health : RangeClient → List VaultItem → String → HealthReport × List String
  vault_health ranges items now =
      let kept = with_password items in
      let checked = check_items ranges (count_usage (passwords kept) []) no_checks kept in
      (
        record {
          items = checked.1;
          checked_at = now;
          breach_check_available = checked.0.available;
          summary = summary_of checked.1;
        },
        checked.0.asked,
      )
