-- ===== src/Server/Cbor/Tests.antt =====
-- Runs of the codec, over a UTF-8 that writes one number for each character.
use Prim.Native.Nat.{Ordering, compare}
use Prim.Native.Char.{Char, char, code, nul, IsScalar}
use package.text.Mathlib.TextEquality.{Char-path}
use vault_keep.Base.{
  ==_of_ne, if◌then◌else◌, ◌==◌, ℕ, some, List, [], ◌∷◌, String, ok, ◌≡◌, ◌≢◌, ◌∙◌, ap, refl, arith,
}
use vault_keep.Base.Int.{pos, negsuc}
use vault_keep.Server.Cbor.{
  number_key, text_key, CborValue, number, text, bytes, array, map, undefined, item, no_items,
  entry, no_entries, returned, thrown, out_of_fuel, decode_cbor, decode_cbor_first, decode_item,
  decode_major, read_length, encode_cbor, encode_item, encode_items, encode_entries, encode_key,
  encode_number, encode_text, write_head,
}
use vault_keep.Server.Cbor.Fuel.{decode_cbor-ends}
use vault_keep.Server.Cbor.RoundTrip.{NoMark, IsPlain, decode-encode_cbor}

is_scalar :
    (n : ℕ) (o p q : Ordering)
    → compare n 55296 ≡ o
    → compare 57343 n ≡ p
    → compare n 1114112 ≡ q
    → Dec (IsScalar n)
is_scalar n Ordering.lt p q eo ep em = yes (rw eo tt)
is_scalar n Ordering.eq Ordering.lt Ordering.lt eo ep em = yes (rw eo (rw ep (rw em tt)))
is_scalar n Ordering.eq Ordering.lt Ordering.eq eo ep em =
    no λ h. (rw em at (rw ep at (rw eo at h)))
is_scalar n Ordering.eq Ordering.lt Ordering.gt eo ep em =
    no λ h. (rw em at (rw ep at (rw eo at h)))
is_scalar n Ordering.eq Ordering.eq q eo ep em = no λ h. (rw ep at (rw eo at h))
is_scalar n Ordering.eq Ordering.gt q eo ep em = no λ h. (rw ep at (rw eo at h))
is_scalar n Ordering.gt Ordering.lt Ordering.lt eo ep em = yes (rw eo (rw ep (rw em tt)))
is_scalar n Ordering.gt Ordering.lt Ordering.eq eo ep em =
    no λ h. (rw em at (rw ep at (rw eo at h)))
is_scalar n Ordering.gt Ordering.lt Ordering.gt eo ep em =
    no λ h. (rw em at (rw ep at (rw eo at h)))
is_scalar n Ordering.gt Ordering.eq q eo ep em = no λ h. (rw ep at (rw eo at h))
is_scalar n Ordering.gt Ordering.gt q eo ep em = no λ h. (rw ep at (rw eo at h))

abbrev char_if : (n : ℕ) → Dec (IsScalar n) → Char
char_if n (yes p) = char n p
char_if n (no k) = nul

abbrev char_of : ℕ → Char
char_of n =
    char_if n (is_scalar n (compare n 55296) (compare 57343 n) (compare n 1114112) refl refl refl)

char_if-code : (c : Char) (d : Dec (IsScalar (code c))) → char_if (code c) d ≡ c
char_if-code c (yes p) = Char-path (char (code c) p) c refl
char_if-code (char n p) (no k) = absurd (k p)

abbrev to_codes : String → List ℕ
to_codes String.[] = []
to_codes (String.◌∷◌ c s) = code c ∷ to_codes s

abbrev chars_of : List ℕ → String
chars_of [] = String.[]
chars_of (n ∷ ns) = String.◌∷◌ (char_of n) (chars_of ns)

-- A leading byte order mark is dropped.
abbrev from_codes : List ℕ → String
from_codes [] = String.[]
from_codes (n ∷ ns) = if n == 65279 then chars_of ns else chars_of (n ∷ ns)

chars_lem : (s : String) → chars_of (to_codes s) ≡ s
chars_lem String.[] = refl
chars_lem (String.◌∷◌ c s) =
    ap (λ d. String.◌∷◌ d (chars_of (to_codes s))) (char_if-code c _)
    ∙ ap (String.◌∷◌ c) (chars_lem s)

codes_lem : (s : String) → NoMark s → from_codes (to_codes s) ≡ s
codes_lem String.[] h = refl
codes_lem (String.◌∷◌ c s) h =
    ap (λ b. if b then chars_of (to_codes s) else chars_of (to_codes (String.◌∷◌ c s)))
      (==_of_ne (code c) 65279 h)
    ∙ chars_lem (String.◌∷◌ c s)

abbrev key_value : CborValue
key_value = map (
    entry (number_key (pos 1)) (number (pos 2)) (
      entry (number_key (negsuc 1)) (bytes (200 ∷ []))
        (entry (text_key "fmt") (array (item (text "none") no_items)) no_entries)))

abbrev key_bytes : List ℕ
key_bytes =
    163 ∷ 1 ∷ 2 ∷ 33 ∷ 65 ∷ 200 ∷ 99 ∷ 102 ∷ 109 ∷ 116 ∷ 129 ∷ 100 ∷ 110 ∷ 111 ∷ 110 ∷ 101 ∷ []

encode_key_value : encode_cbor to_codes key_value ≡ ok key_bytes
unfolding encode_cbor encode_item encode_items encode_entries encode_key encode_number encode_text
    write_head
encode_key_value = refl

key_value-IsPlain : IsPlain to_codes from_codes key_value
key_value-IsPlain = (
  omega arith,
  (refl, (refl, (refl, tt))),
  (
    omega arith,
    omega arith,
    (omega arith, omega arith, (omega arith, (omega arith, (omega arith, tt)), tt)),
  ),
)

decode-encode_cbor_example : decode_cbor from_codes key_bytes ≡ returned key_value
decode-encode_cbor_example =
    decode-encode_cbor to_codes from_codes codes_lem key_value key_bytes key_value-IsPlain
      encode_key_value

decode_cbor-ends_example :
    (decode_cbor from_codes (159 ∷ []) ≢ out_of_fuel)
    × (decode_cbor_first from_codes (159 ∷ []) ≢ out_of_fuel)
decode_cbor-ends_example = decode_cbor-ends from_codes (159 ∷ [])

-- A head that is cut short: the length is read past the end, and the first value is `undefined`.
cut_short : decode_cbor_first from_codes (24 ∷ []) ≡ returned (undefined, some 2)
unfolding decode_cbor_first decode_item decode_major read_length
cut_short = refl

cut_short_whole : decode_cbor from_codes (24 ∷ []) ≡ thrown "cbor: trailing bytes"
unfolding decode_cbor decode_item decode_major read_length
cut_short_whole = refl

mark_is_dropped : decode_cbor from_codes (97 ∷ 65279 ∷ []) ≡ returned (text "")
unfolding decode_cbor decode_item decode_major read_length
mark_is_dropped = refl
