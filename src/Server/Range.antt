-- ===== src/Server/Range.antt =====
-- packages/server/src/breach/range.service.ts: which hashes of known passwords begin with a prefix.
-- SHA-1 in hexadecimal, `trim`, `toUpperCase` and `String` of a number are the fields of `Runtime`. The
-- upstream service, if there is one, is an argument: what it answers, or throws, for a prefix. Texts are
-- in the basic plane, where a text's order by characters is its order by UTF-16 units.
pub mod Upstream
mod Tests
use Prim.Native.Char.{Char, code}
use Prim.Native.String
use Prim.Native.String.{compare}
use Prim.Native.Nat.{Ordering}
use vault_keep.Base.{
  ℕ, zero, suc, ◌+◌, ◌-◌, ◌*◌, Option, none, some, Bool, true, false, ◌&&◌, ◌||◌, not,
  if◌then◌else◌, ◌==◌, List, [], ◌∷◌, ◌++◌, map, filter, String, ◌<>◌, str_eq, Thrown, ok, throw,
  leb, length, or_else, truthy, text_length, utf16_length, split_on,
}
use vault_keep.Base.Dict.{Dict, get, put}
use vault_keep.Desktop.Health.{split_lines, slice_to, slice_from, first_piece, is_between, is_digit}

pub record Runtime : Type 0 where
  pub sha1_hex_upper : String → String
  pub trim : String → String
  pub to_upper : String → String
  pub to_string : ℕ → String

-- `RangeUpstream`
abbrev pub RangeUpstream : Type 0
RangeUpstream = String → Thrown String

pub record BreachRangeService : Type 0 where
  pub buckets : Dict (List (String × ℕ))
  pub upstream_cache : Dict String

abbrev pub new_service : BreachRangeService
new_service = record { buckets = []; upstream_cache = [] }

unfoldable pub add_hash : BreachRangeService → String → ℕ → BreachRangeService
add_hash s hash_hex count =
    let prefix = slice_to 5 hash_hex in
    let bucket = or_else [] (get prefix s.buckets) in
    record s { buckets = put prefix (bucket ++ (slice_from 5 hash_hex, count) ∷ []) s.buckets }

abbrev pub is_upper_hex : ℕ → Bool
is_upper_hex n = is_digit n || is_between 65 70 n

abbrev pub is_hex : ℕ → Bool
is_hex n = is_upper_hex n || is_between 97 102 n

abbrev pub all_codes : (ℕ → Bool) → String → Bool
all_codes p String.[] = true
all_codes p (String.◌∷◌ c s) = p (code c) && all_codes p s

-- `/^[0-9A-F]{5}$/`
unfoldable pub is_valid_prefix : String → Bool
is_valid_prefix prefix = (text_length prefix == 5) && all_codes is_upper_hex prefix

-- The number that decimal digits stand for, onto what is read already.
abbrev pub read_digits : ℕ → String → ℕ
read_digits n String.[] = n
read_digits n (String.◌∷◌ c s) = read_digits (10 * n + (code c - 48)) s

abbrev pub hash_parts : List String → Option (String × ℕ)
hash_parts (hash ∷ count ∷ []) =
    if (text_length hash == 40) && all_codes is_hex hash && truthy count && all_codes is_digit count
    then some (hash, read_digits 0 count)
    else none
hash_parts _ = none

-- `/^([0-9A-Fa-f]{40}):(\d+)$/`
unfoldable pub hash_line : String → Option (String × ℕ)
hash_line line = hash_parts (split_on b':' line)

-- `list.sort()`
unfoldable pub insert : String → List String → List String
insert x [] = x ∷ []
insert x (y ∷ ys) =
    let rest = insert x ys in elim (compare x y) [ Ordering.gt ↦ y ∷ rest | _ ↦ x ∷ y ∷ ys ]

unfoldable pub sort : List String → List String
sort [] = []
sort (x ∷ xs) = insert x (sort xs)

-- `lines.join("\n")`
unfoldable pub join_lines : List String → String
join_lines [] = ""
join_lines (x ∷ []) = x
join_lines (x ∷ y ∷ ys) = x <> ("\n" <> join_lines (y ∷ ys))

abbrev pub is_seen : String → List String → Bool
is_seen suffix [] = false
is_seen suffix (x ∷ xs) = str_eq x suffix || is_seen suffix xs

module _ (rt : Runtime) where
  -- `passwords.length - i` for the first password left is how many are left.
  unfoldable pub load_passwords : BreachRangeService → List String → BreachRangeService
  load_passwords s [] = s
  load_passwords s (pw ∷ pws) =
      load_passwords (add_hash s (rt.sha1_hex_upper pw) (length (pw ∷ pws))) pws

  abbrev pub load_line : BreachRangeService → String → BreachRangeService
  load_line s line = elim (hash_line (rt.trim line)) [
    | some (hash, count) ↦ add_hash s (rt.to_upper hash) count
    | none ↦ add_hash s (rt.sha1_hex_upper line) 1
  ]

  abbrev pub load_lines : BreachRangeService → List String → BreachRangeService
  load_lines s [] = s
  load_lines s (line ∷ lines) = load_lines (load_line s line) lines

  -- Over the text of the file that is read.
  unfoldable pub load_corpus_file : BreachRangeService → String → BreachRangeService × ℕ
  load_corpus_file s text =
      let lines = filter truthy (split_lines text) in (load_lines s lines, length lines)

  abbrev pub suffix_line : String × ℕ → String
  suffix_line (suffix, count) = suffix <> (":" <> rt.to_string count)

  abbrev pub local_lines : BreachRangeService → String → List String
  local_lines s prefix = map suffix_line (or_else [] (get prefix s.buckets))

  -- `catch`: what is served locally
  abbrev pub or_empty : Thrown String → String
  or_empty (ok body) = body
  or_empty (throw e) = ""

  -- What the upstream says, asked for once.
  abbrev pub upstream_body :
      RangeUpstream → BreachRangeService → String → Option String → BreachRangeService × String
  upstream_body upstream s prefix (some up) = (s, up)
  upstream_body upstream s prefix none =
      let up = or_empty (upstream prefix) in
      (record s { upstream_cache = put prefix up s.upstream_cache }, up)

  -- `suffix && suffix.length === 35 && !seen.has(suffix)`
  abbrev pub is_new_suffix : List String → String → Bool
  is_new_suffix seen suffix =
      truthy suffix && (utf16_length suffix == 35) && not (is_seen suffix seen)

  abbrev pub is_kept : List String → String → Bool
  is_kept seen line = is_new_suffix seen (rt.to_upper (rt.trim (first_piece (split_on b':' line))))

  abbrev pub merged : List String → String → List String
  merged local up =
      let seen = map (λ l. first_piece (split_on b':' l)) local in
      local ++ map rt.trim (filter (is_kept seen) (split_lines up))

  abbrev pub range_with :
      Option RangeUpstream → BreachRangeService → String → BreachRangeService × List String
  range_with none s prefix = (s, local_lines s prefix)
  range_with (some upstream) s prefix =
      let asked = upstream_body upstream s prefix (get prefix s.upstream_cache) in
      (asked.0, merged (local_lines s prefix) asked.1)

  unfoldable pub range :
      Option RangeUpstream → BreachRangeService → String → BreachRangeService × Thrown String
  range upstream s prefix =
      let answered = range_with upstream s prefix in
      if not (is_valid_prefix prefix)
      then (s, throw "invalid prefix")
      else (answered.0, ok (join_lines (sort answered.1)))

  -- Requests one after another, each with what the upstream does at its time.
  unfoldable pub range_all : BreachRangeService → List (RangeUpstream × String) → BreachRangeService
  range_all s [] = s
  range_all s ((upstream, prefix) ∷ rest) = range_all (range (some upstream) s prefix).0 rest
