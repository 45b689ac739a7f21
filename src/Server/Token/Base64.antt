-- ===== src/Server/Token/Base64.antt =====
-- The base64url alphabet: what `b64url` replaces, `verify` puts back.
use Prim.Native.Char.{Char, code}
use text.Mathlib.TextEquality.{Char-path}
use vault_keep.Base.{
  ℕ, ◌≡◌, ◌≢◌, sym, ap, refl, ◌&&◌, ◌==◌, String, NoChar, Bool-cases, inl, inr, arith, ==_iff,
  ==_of_ne,
}
use vault_keep.Server.Token.{swap, replace_all, strip_padding, is_nil}

swap-padding :
    (a : ℕ) (b c : Char) → a ≢ b'=' → code b ≢ b'=' → (code (swap a b c) == b'=') ≡ (code c == b'=')
swap-padding a b c ha hb = ground arith

is_nil-replace_all : (a : ℕ) (b : Char) (s : String) → is_nil (replace_all a b s) ≡ is_nil s
is_nil-replace_all a b String.[] = refl
is_nil-replace_all a b (String.◌∷◌ c s) = refl

pub replace_all-strip_padding :
    (a : ℕ) (b : Char) (s : String)
    → a ≢ b'='
    → code b ≢ b'='
    → replace_all a b (strip_padding s) ≡ strip_padding (replace_all a b s)
replace_all-strip_padding a b String.[] ha hb = refl
replace_all-strip_padding a b (String.◌∷◌ c s) ha hb =
    let ih = replace_all-strip_padding a b s ha hb in
    let same : (code (swap a b c) == b'=' && is_nil (strip_padding (replace_all a b s)))
        ≡ (code c == b'=' && is_nil (strip_padding s)) =
      rw (swap-padding a b c ha hb, ← ih, is_nil-replace_all) in
    rw same (elim (Bool-cases (code c == b'=' && is_nil (strip_padding s))) [
      | inl ends ↦ rw ends
      | inr goes_on ↦ rw goes_on (ap (String.◌∷◌ (swap a b c)) ih)
    ])

-- `-` and `_` do not occur in base64 itself, so `b64url` loses nothing by using them.
unswap_char :
    (c : Char)
    → code c ≢ b'-'
    → code c ≢ b'_'
    → swap b'_' "/" (swap b'-' "+" (swap b'/' "_" (swap b'+' "-" c))) ≡ c
unswap_char c dash low = elim (Bool-cases (code c == b'+')) [
  | inl plus ↦ rw plus (Char-path "+" c (sym ((==_iff (code c) b'+').0 plus)))
  | inr other ↦ rw other (elim (Bool-cases (code c == b'/')) [
    | inl slash ↦ rw slash (Char-path "/" c (sym ((==_iff (code c) b'/').0 slash)))
    | inr other' ↦ rw (other', ==_of_ne (code c) b'-' dash, ==_of_ne (code c) b'_' low)
  ])
]

pub replace_all_back :
    (s : String)
    → NoChar b'-' s
    → NoChar b'_' s
    → replace_all b'_' "/" (replace_all b'-' "+" (replace_all b'/' "_" (replace_all b'+' "-" s)))
      ≡ s
replace_all_back String.[] h k = refl
replace_all_back (String.◌∷◌ c s) (hc, h) (kc, k) = cc (unswap_char c hc kc, replace_all_back s h k)

-- No dot comes in.
pub NoChar-replace_all :
    (d a : ℕ) (b : Char) (s : String) → code b ≢ d → NoChar d s → NoChar d (replace_all a b s)
NoChar-replace_all d a b String.[] hb h = tt
NoChar-replace_all d a b (String.◌∷◌ c s) hb (hc, h) = (
  elim (Bool-cases (code c == a)) [ inl same ↦ rw same hb | inr other ↦ rw other hc ],
  NoChar-replace_all d a b s hb h,
)

pub NoChar-strip_padding : (d : ℕ) (s : String) → NoChar d s → NoChar d (strip_padding s)
NoChar-strip_padding d String.[] h = tt
NoChar-strip_padding d (String.◌∷◌ c s) (hc, h) =
    elim (Bool-cases (code c == b'=' && is_nil (strip_padding s))) [
      | inl ends ↦ rw ends tt
      | inr goes_on ↦ rw goes_on (hc, NoChar-strip_padding d s h)
    ]
