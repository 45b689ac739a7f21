-- ===== src/Server/Range/Tests.antt =====
-- Ranges of a small corpus, with a toy hash.
use vault_keep.Base.{List, String, true, none, some, [], ◌∷◌, ◌<>◌, ok, throw, ◌≡◌, refl, split_on}
use vault_keep.Base.Dict.{get, put}
use vault_keep.Desktop.Health.{split_lines}
use vault_keep.Server.Range.{
  Runtime, RangeUpstream, BreachRangeService, new_service, add_hash, load_passwords, hash_line,
  is_valid_prefix, insert, sort, join_lines, range_all, range,
}
use vault_keep.Server.Range.Upstream.{range-outage}

abbrev toy : Runtime
toy = record {
  sha1_hex_upper = λ pw. "AB12C" <> pw;
  trim = λ s. s;
  to_upper = λ s. s;
  to_string = λ n. "1";
}

abbrev down : RangeUpstream
down prefix = throw "upstream 503"

abbrev up : RangeUpstream
up prefix = ok "00000000000000000000000000000000000:7\r\nshort:1"

abbrev loaded : BreachRangeService
loaded = load_passwords toy new_service ("zebra" ∷ "apple" ∷ [])

sorted_lines : (range toy none loaded "AB12C").1 ≡ ok "apple:1\nzebra:1"
unfolding range load_passwords add_hash get put is_valid_prefix insert sort join_lines
sorted_lines = refl

merged_lines :
    (range toy (some up) loaded "AB12C").1
    ≡ ok "00000000000000000000000000000000000:7\napple:1\nzebra:1"
unfolding range load_passwords add_hash get put is_valid_prefix insert sort join_lines split_lines
    split_on
merged_lines = refl

no_such_prefix : (range toy none loaded "ab12c").1 ≡ throw "invalid prefix"
unfolding range is_valid_prefix
no_such_prefix = refl

prehashed :
    hash_line "0123456789abcdef0123456789abcdef01234567:42"
    ≡ some ("0123456789abcdef0123456789abcdef01234567", 42)
unfolding hash_line split_on
prehashed = refl

valid : is_valid_prefix "AB12C" ≡ true
unfolding is_valid_prefix
valid = refl

not_cached : get "AB12C" loaded.upstream_cache ≡ none
unfolding load_passwords add_hash get
not_cached = refl

abbrev later_calls : List (RangeUpstream × String)
later_calls = (up, "AB12C") ∷ (up, "00000") ∷ (up, "AB12C") ∷ []

range-outage_example :
    ((range toy (some down) loaded "AB12C").1 ≡ (range toy none loaded "AB12C").1)
    × ((range toy
          (some up)
          (range_all toy (range toy (some down) loaded "AB12C").0 later_calls)
          "AB12C").1
        ≡ (range toy none loaded "AB12C").1)
range-outage_example =
    range-outage toy refl refl down up loaded "AB12C" "upstream 503" later_calls valid not_cached
      refl
