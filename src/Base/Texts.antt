-- ===== src/Base/Texts.antt =====
-- Texts: truthiness, and template literals `${a}:${b}` as keys.
use Prim.Native.Nat.{ℕ, suc, ◌+◌}
use Prim.Native.Char.{Char, code}
use Prim.Native.String.{String, [], ◌∷◌, ◌++◌}
use mathlib.Core.Path.{◌≡◌, refl, ap, sym, ◌∙◌}
use mathlib.Core.Logic.{◌≢◌, ◌⊎◌}
use mathlib.Core.Bool.{Bool, true, false, not, ◌&&◌}
use mathlib.Core.Option.{Option, none, some}
use mathlib.Core.List.{List}
use native.Mathlib.Omega.{arith}
use text.Mathlib.Text.{◌==◌ as str_eq}
use text.Mathlib.TextEquality.{eq_iff}
use text.Mathlib.TextLemmas.{nil-append, cons-append, cons-eq-cons}
use vault_keep.Base.Tests.{ltb, ◌==◌, if◌then◌else◌, ==_self, ==_of_ne}

-- `if (s)`: the empty text is false
abbrev pub truthy : String → Bool
truthy s = not (str_eq s "")

-- the number of characters
abbrev pub text_length : String → ℕ
text_length [] = 0
text_length (c ∷ s) = suc (text_length s)

-- `s.length`: a character past the basic plane counts for two.
abbrev pub utf16_length : String → ℕ
utf16_length [] = 0
utf16_length (c ∷ s) = (if ltb (code c) 65536 then 1 else 2) + utf16_length s

-- `${user}:${id}`
unfoldable pub joined : String → String → String
joined u i = u ++ (":" ++ i)

-- No character of the text is a colon. A version 4 UUID has none.
abbrev pub NoColon : String → Type 0
NoColon [] = Unit
NoColon (c ∷ s) = (code c ≢ b':') × NoColon s

abbrev colon : Char
colon = ":"

joined-nil : (i : String) → joined [] i ≡ colon ∷ i
unfolding joined
joined-nil i = nil-append _ ∙ cons-append colon [] i ∙ ap (◌∷◌ colon) (nil-append i)

joined-cons : (c : Char) (u i : String) → joined (c ∷ u) i ≡ c ∷ joined u i
unfolding joined
joined-cons c u i = cons-append c u _

-- Two keys agree only if their parts do, where no user id has a colon.
pub joined_inj :
    (u v i j : String) → NoColon u → NoColon v → joined u i ≡ joined v j → (u ≡ v) × (i ≡ j)
joined_inj [] [] i j hu hv e = (refl, (cons-eq-cons.0 (sym (joined-nil i) ∙ e ∙ joined-nil j)).1)
joined_inj [] (d ∷ v) i j hu hv e =
    let (head, _) = cons-eq-cons.0 (sym (joined-nil i) ∙ e ∙ joined-cons d v j) in
    absurd (hv.0 (ap code (sym head)))
joined_inj (c ∷ u) [] i j hu hv e =
    let (head, _) = cons-eq-cons.0 (sym (joined-cons c u i) ∙ e ∙ joined-nil j) in
    absurd (hu.0 (ap code head))
joined_inj (c ∷ u) (d ∷ v) i j hu hv e =
    let (head, rest) = cons-eq-cons.0 (sym (joined-cons c u i) ∙ e ∙ joined-cons d v j) in
    let (users, ids) = joined_inj u v i j hu.1 hv.1 rest in (cons-eq-cons.1 (head, users), ids)

-- So the test of two keys is the test of their parts.
pub joined_eq :
    (u v i j : String)
    → NoColon u
    → NoColon v
    → str_eq (joined u i) (joined v j) ≡ (str_eq u v && str_eq i j)
joined_eq u v i j hu hv =
    ground
      (arith, eq_iff (joined u i) (joined v j), eq_iff u v, eq_iff i j, joined_inj u v i j hu hv)

-- The test of two pairs of texts.
pub same_key : (u v i j : String) → (str_eq u v && str_eq i j) ≡ true → (u ≡ v) × (i ≡ j)
same_key u v i j h = ground (arith, eq_iff u v, eq_iff i j)

pub other_key : (u v i j : String) → (u ≢ v) ⊎ (i ≢ j) → (str_eq u v && str_eq i j) ≡ false
other_key u v i j h = ground (arith, eq_iff u v, eq_iff i j)

-- No character of the text has the code.
abbrev pub NoChar : ℕ → String → Type 0
NoChar d [] = Unit
NoChar d (c ∷ s) = (code c ≢ d) × NoChar d s

-- the first piece of a text gets one more character
abbrev grow : Char → List String → List String
grow c List.[] = List.[]
grow c (List.◌∷◌ p ps) = List.◌∷◌ (c ∷ p) ps

-- `s.split(d)`, for a separator of one character, given by its code
unfoldable pub split_on : ℕ → String → List String
split_on d [] = List.◌∷◌ [] List.[]
split_on d (c ∷ s) =
    let rest = split_on d s in if code c == d then List.◌∷◌ [] rest else grow c rest

-- What follows a prefix, for `startsWith` and `slice`.
unfoldable pub strip_prefix : String → String → Option String
strip_prefix [] s = some s
strip_prefix (c ∷ p) [] = none
strip_prefix (c ∷ p) (d ∷ s) = if code c == code d then strip_prefix p s else none

pub split_on-NoChar : (d : ℕ) (s : String) → NoChar d s → split_on d s ≡ List.◌∷◌ s List.[]
unfolding split_on
split_on-NoChar d [] h = refl
split_on-NoChar d (c ∷ s) (hc, h) =
    rw (==_of_ne (code c) d hc) (ap (grow c) (split_on-NoChar d s h))

-- The piece before the first separator.
pub split_on-append :
    (d : Char) (s t : String)
    → NoChar (code d) s
    → split_on (code d) (s ++ (d ∷ t)) ≡ List.◌∷◌ s (split_on (code d) t)
unfolding split_on
split_on-append d [] t h = ap (split_on (code d)) (nil-append (d ∷ t)) ∙ rw (==_self (code d))
split_on-append d (c ∷ s) t (hc, h) =
    ap (split_on (code d)) (cons-append c s (d ∷ t))
    ∙ rw (==_of_ne (code c) (code d) hc) (ap (grow c) (split_on-append d s t h))

pub strip_prefix-append : (p s : String) → strip_prefix p (p ++ s) ≡ some s
unfolding strip_prefix
strip_prefix-append [] s = ap some (nil-append s)
strip_prefix-append (c ∷ p) s =
    ap (strip_prefix (c ∷ p)) (cons-append c p s) ∙ rw (==_self (code c)) (strip_prefix-append p s)
