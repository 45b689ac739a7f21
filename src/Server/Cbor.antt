-- ===== src/Server/Cbor.antt =====
-- packages/server/src/auth/cbor.ts: the CBOR codec. A byte past the end of the buffer is `undefined`,
-- and arithmetic on it gives NaN: a length and a position may be either. `TextDecoder` and
-- `TextEncoder` are the arguments `from_utf8` and `to_utf8`. Numbers are whole numbers or NaN.
pub mod Entries
pub mod Fuel
pub mod Head
pub mod RoundTrip
mod Tests
use vault_keep.Base.{
  ℕ, zero, suc, ◌+◌, ◌-◌, ◌*◌, ◌/◌, ◌%◌, ◌^◌, Option, none, some, Bool, true, false, ◌&&◌, ◌||◌,
  not, if◌then◌else◌, ◌==◌, List, [], ◌∷◌, ◌++◌, String, str_eq, Thrown, ok, throw, ◌>>=◌, ltb, leb,
  length, get_elem?, take, drop, or_else,
}
use vault_keep.Base.Int.{ℤ, pos, negsuc}

-- A key of a `Map`: a number or a text.
pub data CborKey : Type 0 where
  number_key : ℤ → CborKey
  nan_key : CborKey
  text_key : String → CborKey

mutual
  pub data CborValue : Type 0 where
    number : ℤ → CborValue
    nan : CborValue
    undefined : CborValue
    text : String → CborValue
    bytes : List ℕ → CborValue
    array : CborItems → CborValue
    map : CborEntries → CborValue

  pub data CborItems : Type 0 where
    no_items : CborItems
    item : CborValue → CborItems → CborItems

  -- the entries of a `Map`, in the order of insertion
  pub data CborEntries : Type 0 where
    no_entries : CborEntries
    entry : CborKey → CborValue → CborEntries → CborEntries

abbrev pub eqb_ℤ : ℤ → ℤ → Bool
eqb_ℤ (pos a) (pos b) = a == b
eqb_ℤ (negsuc a) (negsuc b) = a == b
eqb_ℤ (pos a) (negsuc b) = false
eqb_ℤ (negsuc a) (pos b) = false

-- The keys are the same to a `Map`, to which NaN is itself.
abbrev pub same_cbor_key : CborKey → CborKey → Bool
same_cbor_key (number_key a) (number_key b) = eqb_ℤ a b
same_cbor_key nan_key nan_key = true
same_cbor_key (text_key s) (text_key t) = str_eq s t
same_cbor_key _ _ = false

-- `map.set(k, v)`
unfoldable pub set_entry : CborKey → CborValue → CborEntries → CborEntries
set_entry k v no_entries = entry k v no_entries
set_entry k v (entry j w es) =
    if same_cbor_key j k then entry j v es else entry j w (set_entry k v es)

-- `map.get(k)`
unfoldable pub get_entry : CborKey → CborEntries → Option CborValue
get_entry k no_entries = none
get_entry k (entry j w es) = if same_cbor_key j k then some w else get_entry k es

-- What a run does: it returns, throws, or has used up the fuel.
pub data Run {ℓ} (A : Type ℓ) : Type ℓ where
  returned : A → Run A
  thrown : String → Run A
  out_of_fuel : Run A

abbrev pub and_then {ℓ κ} : {A : Type ℓ} {B : Type κ} → Run A → (A → Run B) → Run B
and_then (returned a) f = f a
and_then (thrown e) f = thrown e
and_then out_of_fuel f = out_of_fuel

abbrev pub run_of {ℓ} : {A : Type ℓ} → Thrown A → Run A
run_of (ok a) = returned a
run_of (throw e) = thrown e

-- A position in the buffer, none for NaN.
abbrev pub Position : Type 0
Position = Option ℕ

abbrev pub add : Position → ℕ → Position
add none n = none
add (some a) n = some (a + n)

-- `buf[at]`
abbrev pub byte_at : List ℕ → Position → Option ℕ
byte_at buf none = none
byte_at buf (some a) = get_elem? buf a

-- The operand of a bit operation: `undefined` is 0 there.
abbrev pub bits_at : List ℕ → Position → ℕ
bits_at buf at = or_else 0 (byte_at buf at)

-- A length that was read.
pub data Length : Type 0 where
  known : ℕ → Length
  missing : Length
  not_a_number : Length

abbrev pub one_byte : Option ℕ → Length
one_byte none = missing
one_byte (some b) = known b

abbrev pub four_bytes : Option ℕ → ℕ → Length
four_bytes none low = not_a_number
four_bytes (some b) low = known (b * 2 ^ 24 + low)

unfoldable pub read_length : List ℕ → Position → ℕ → Thrown (Length × Position)
read_length buf at info =
    if ltb info 24
    then ok (known info, at)
    else if info == 24
    then ok (one_byte (byte_at buf at), add at 1)
    else if info == 25
    then ok (known (bits_at buf at * 2 ^ 8 + bits_at buf (add at 1)), add at 2)
    else if info == 26
    then ok (
      four_bytes (byte_at buf at) (
          bits_at buf (add at 1) * 2 ^ 16
          + bits_at buf (add at 2) * 2 ^ 8
          + bits_at buf (add at 3)),
      add at 4,
    )
    else throw "cbor: unsupported length encoding"

-- `offset + len`
abbrev pub end_of : Position → Length → Position
end_of offset (known n) = add offset n
end_of offset missing = none
end_of offset not_a_number = none

-- `buf.slice(offset, end)`; an end of NaN counts as 0
abbrev pub slice : List ℕ → Position → Position → List ℕ
slice buf none end = []
slice buf (some a) none = []
slice buf (some a) (some e) = take (e - a) (drop a buf)

-- `at > buf.length`, and `at >= buf.length`: false for NaN
abbrev pub is_past : List ℕ → Position → Bool
is_past buf none = false
is_past buf (some a) = ltb (length buf) a

abbrev pub is_at_end : List ℕ → Position → Bool
is_at_end buf none = false
is_at_end buf (some a) = leb (length buf) a

-- how many turns `for (let i = 0; i < len; i++)` has
abbrev pub turns : Length → ℕ
turns (known n) = n
turns missing = 0
turns not_a_number = 0

abbrev pub unsigned : Length → CborValue
unsigned (known n) = number (pos n)
unsigned missing = undefined
unsigned not_a_number = nan

-- `-1 - len`
abbrev pub negative : Length → CborValue
negative (known n) = number (negsuc n)
negative missing = nan
negative not_a_number = nan

abbrev pub key_of : CborValue → Thrown CborKey
key_of (number z) = ok (number_key z)
key_of nan = ok nan_key
key_of (text s) = ok (text_key s)
key_of _ = throw "cbor: unsupported map key type"

-- The turns of the two loops that are left, over the decoder of an item.
unfoldable pub decode_items :
    (Position → Run (CborValue × Position)) → ℕ → Position → Run (CborItems × Position)
decode_items decode zero cur = returned (no_items, cur)
decode_items decode (suc n) cur =
    and_then (decode cur)
      λ (v, next). and_then (decode_items decode n next) λ (vs, last). returned (item v vs, last)

unfoldable pub decode_entries :
    (Position → Run (CborValue × Position))
    → ℕ
    → CborEntries
    → Position
    → Run (CborEntries × Position)
decode_entries decode zero es cur = returned (es, cur)
decode_entries decode (suc n) es cur = and_then (decode cur) λ (k, after_key).
    and_then (run_of (key_of k)) λ key.
      and_then (decode after_key)
        λ (v, after_value). decode_entries decode n (set_entry key v es) after_value

module _ (from_utf8 : List ℕ → String) where
  unfoldable pub decode_major :
      List ℕ
      → (Position → Run (CborValue × Position))
      → ℕ
      → Length
      → Position
      → Run (CborValue × Position)
  decode_major buf decode major len offset =
      if major == 0
      then returned (unsigned len, offset)
      else if major == 1
      then returned (negative len, offset)
      else if major == 2
      then if is_past buf (end_of offset len)
        then thrown "cbor: truncated bytes"
        else returned (bytes (slice buf offset (end_of offset len)), end_of offset len)
      else if major == 3
      then if is_past buf (end_of offset len)
        then thrown "cbor: truncated text"
        else returned (text (from_utf8 (slice buf offset (end_of offset len))), end_of offset len)
      else if major == 4
      then and_then (decode_items decode (turns len) offset)
          (λ (vs, last). returned (array vs, last))
      else if major == 5
      then and_then (decode_entries decode (turns len) no_entries offset)
          (λ (es, last). returned (map es, last))
      else if major == 6
      then thrown "cbor: unsupported major type 6"
      else thrown "cbor: unsupported major type 7"

  -- The fuel bounds the depth of the calls.
  unfoldable pub decode_item : ℕ → List ℕ → Position → Run (CborValue × Position)
  decode_item zero buf at = out_of_fuel
  decode_item (suc fuel) buf at =
      let initial = bits_at buf at in
      if is_at_end buf at
      then thrown "cbor: truncated"
      else and_then (run_of (read_length buf (add at 1) (initial % 32)))
          λ (len, offset). decode_major buf (decode_item fuel buf) (initial / 32) len offset

  -- `rest !== buf.length`
  abbrev pub is_end : List ℕ → Position → Bool
  is_end buf none = false
  is_end buf (some a) = a == length buf

  unfoldable pub decode_cbor : List ℕ → Run CborValue
  decode_cbor buf =
      and_then (decode_item (length buf + 1) buf (some 0))
        λ (v, rest). if is_end buf rest then returned v else thrown "cbor: trailing bytes"

  unfoldable pub decode_cbor_first : List ℕ → Run (CborValue × Position)
  decode_cbor_first buf = decode_item (length buf + 1) buf (some 0)

-- `m | info` for a major type and an info below 32: the bits do not overlap
unfoldable pub write_head : ℕ → ℕ → List ℕ
write_head major len =
    if ltb len 24
    then (major * 32 + len) ∷ []
    else if ltb len 256
    then (major * 32 + 24) ∷ len ∷ []
    else if ltb len 65536
    then (major * 32 + 25) ∷ len / 256 ∷ len % 256 ∷ []
    else (major * 32 + 26)
      ∷ (len / 2 ^ 24) % 256
      ∷ (len / 2 ^ 16) % 256
      ∷ (len / 2 ^ 8) % 256
      ∷ len % 256
      ∷ []

abbrev pub count_items : CborItems → ℕ
count_items no_items = 0
count_items (item v vs) = suc (count_items vs)

abbrev pub count_entries : CborEntries → ℕ
count_entries no_entries = 0
count_entries (entry k v es) = suc (count_entries es)

-- What is pushed onto `out`; a byte is below 256, so `Uint8Array.from` keeps it.
abbrev pub write_both : Thrown (List ℕ) → Thrown (List ℕ) → Thrown (List ℕ)
write_both a b = a >>= λ xs. b >>= λ ys. ok (xs ++ ys)

module _ (to_utf8 : String → List ℕ) where
  unfoldable pub encode_number : ℤ → List ℕ
  encode_number (pos n) = write_head 0 n
  encode_number (negsuc n) = write_head 1 n

  unfoldable pub encode_text : String → List ℕ
  encode_text s = write_head 3 (length (to_utf8 s)) ++ to_utf8 s

  unfoldable pub encode_key : CborKey → Thrown (List ℕ)
  encode_key (number_key z) = ok (encode_number z)
  encode_key nan_key = throw "cbor: only integers supported"
  encode_key (text_key s) = ok (encode_text s)

  unfoldable mutual
    pub encode_item : CborValue → Thrown (List ℕ)
    encode_item (number z) = ok (encode_number z)
    encode_item nan = throw "cbor: only integers supported"
    encode_item undefined = throw "cbor: unsupported value"
    encode_item (text s) = ok (encode_text s)
    encode_item (bytes bs) = ok (write_head 2 (length bs) ++ bs)
    encode_item (array vs) = write_both (ok (write_head 4 (count_items vs))) (encode_items vs)
    encode_item (map es) = write_both (ok (write_head 5 (count_entries es))) (encode_entries es)

    pub encode_items : CborItems → Thrown (List ℕ)
    encode_items no_items = ok []
    encode_items (item v vs) = write_both (encode_item v) (encode_items vs)

    pub encode_entries : CborEntries → Thrown (List ℕ)
    encode_entries no_entries = ok []
    encode_entries (entry k v es) =
        write_both (encode_key k) (write_both (encode_item v) (encode_entries es))

  unfoldable pub encode_cbor : CborValue → Thrown (List ℕ)
  encode_cbor v = encode_item v
