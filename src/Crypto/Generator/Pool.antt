-- ===== src/Crypto/Generator/Pool.antt =====
-- What a generated password is made of.
use Prim.Native.Char.{code}
use vault_keep.Base.{
  ℕ, zero, suc, ◌≤◌, ◌<◌, min, max, Bool, true, false, not, ◌||◌, ◌==◌, ==_self, String, ok, ◌≡◌,
  ◌∙◌, ap, sym, refl, arith, truthy, text_length, guard-ok, ok_inj, subst, ◌≢◌, ◌⊎◌, inl, inr, ◌<>◌,
  Bool-cases,
}
use text.Mathlib.TextLemmas.{nil-append, cons-append}
use vault_keep.Server.Mfa.{char_at}
use vault_keep.Crypto.Generator.{
  PasswordOptions, pool, clamped, draw_chars, generate_password, enabled, uppercase_set,
  lowercase_set, numbers_set, symbols_set,
}

-- The text has a character with the code.
abbrev pub has_code : String → ℕ → Bool
has_code String.[] d = false
has_code (String.◌∷◌ c s) d = (code c == d) || has_code s d

-- Every character of the second text is one of the first.
abbrev pub IsFrom : String → String → Type 0
IsFrom from String.[] = Unit
IsFrom from (String.◌∷◌ c s) = (has_code from (code c) ≡ true) × IsFrom from s

-- A character that the options allow: by its code, a letter but I and O, a letter but l and o, a digit
-- from 2 on, or one of `! @ # $ % ^ & * - _ = + ?`.
abbrev pub IsAllowed : PasswordOptions → ℕ → Type 0
IsAllowed opts n =
    ((opts.uppercase ≡ true) × ((65 ≤ n) × (n ≤ 90) × (n ≢ 73) × (n ≢ 79)))
    ⊎ ((opts.lowercase ≡ true) × ((97 ≤ n) × (n ≤ 122) × (n ≢ 108) × (n ≢ 111)))
    ⊎ ((opts.numbers ≡ true) × ((50 ≤ n) × (n ≤ 57)))
    ⊎ ((opts.symbols ≡ true) × (has_code "!@#$%^&*-_=+?" n ≡ true))

abbrev pub AllAllowed : PasswordOptions → String → Type 0
AllAllowed opts String.[] = Unit
AllAllowed opts (String.◌∷◌ c s) = IsAllowed opts (code c) × AllAllowed opts s

has_code-append :
    (s t : String) (d : ℕ)
    → has_code (s <> t) d ≡ true
    → (has_code s d ≡ true) ⊎ (has_code t d ≡ true)
has_code-append String.[] t d h = inr (ap (λ u. has_code u d) (sym (nil-append t)) ∙ h)
has_code-append (String.◌∷◌ c s) t d h =
    let split : (code c == d) || has_code (s <> t) d ≡ true =
      ap (λ u. has_code u d) (sym (cons-append c s t)) ∙ h in
    elim (Bool-cases (code c == d)) [
      | inl e ↦ inl (rw e refl)
      | inr e ↦ elim (has_code-append s t d (rw e at split)) [
        | inl here ↦ inl (rw e here)
        | inr there ↦ inr there
      ]
    ]

-- A character of a set that is there only if it is enabled.
has_code-enabled :
    (b : Bool) (set : String) (d : ℕ)
    → has_code (enabled b set) d ≡ true
    → (b ≡ true) × (has_code set d ≡ true)
has_code-enabled true set d h = (refl, h)
has_code-enabled false set d h = cc

uppercase_lem :
    (n : ℕ) → has_code uppercase_set n ≡ true → (65 ≤ n) × (n ≤ 90) × (n ≢ 73) × (n ≢ 79)
uppercase_lem n h = ground arith

lowercase_lem :
    (n : ℕ) → has_code lowercase_set n ≡ true → (97 ≤ n) × (n ≤ 122) × (n ≢ 108) × (n ≢ 111)
lowercase_lem n h = ground arith

numbers_lem : (n : ℕ) → has_code numbers_set n ≡ true → (50 ≤ n) × (n ≤ 57)
numbers_lem n h = ground arith

pool-IsAllowed : (opts : PasswordOptions) (n : ℕ) → has_code (pool opts) n ≡ true → IsAllowed opts n
pool-IsAllowed opts n h = elim (has_code-append (enabled opts.uppercase uppercase_set) _ n h) [
  | inl u ↦
      let (on, is_in) = has_code-enabled opts.uppercase uppercase_set n u in
      inl (on, uppercase_lem n is_in)
  | inr r ↦ elim (has_code-append (enabled opts.lowercase lowercase_set) _ n r) [
    | inl l ↦
        let (on, is_in) = has_code-enabled opts.lowercase lowercase_set n l in
        inr (inl (on, lowercase_lem n is_in))
    | inr q ↦ elim (has_code-append (enabled opts.numbers numbers_set) _ n q) [
      | inl d ↦
          let (on, is_in) = has_code-enabled opts.numbers numbers_set n d in
          inr (inr (inl (on, numbers_lem n is_in)))
      | inr y ↦ inr (inr (inr (has_code-enabled opts.symbols symbols_set n y)))
    ]
  ]
]

IsFrom-AllAllowed : (opts : PasswordOptions) (s : String) → IsFrom (pool opts) s → AllAllowed opts s
IsFrom-AllAllowed opts String.[] h = tt
IsFrom-AllAllowed opts (String.◌∷◌ c s) (here, rest) =
    (pool-IsAllowed opts (code c) here, IsFrom-AllAllowed opts s rest)

or-right : (a b : Bool) → b ≡ true → (a || b) ≡ true
or-right true b h = refl
or-right false b h = h

has_code-char_at : (s : String) (i : ℕ) → i < text_length s → has_code s (code (char_at s i)) ≡ true
has_code-char_at String.[] i h = absurd (omega arith)
has_code-char_at (String.◌∷◌ c s) zero h = rw (==_self (code c)) refl
has_code-char_at (String.◌∷◌ c s) (suc i) h =
    or-right (code c == code (char_at s i)) _ (has_code-char_at s i (omega arith))

module _ (draw : ℕ → ℕ → ℕ) (in_range : (i n : ℕ) → 0 < n → draw i n < n) where
  draw_chars-IsFrom :
      (from : String) (i left : ℕ)
      → 0 < text_length from
      → IsFrom from (draw_chars draw from i left)
  unfolding draw_chars
  draw_chars-IsFrom from i zero h = tt
  draw_chars-IsFrom from i (suc left) h = (
    has_code-char_at from _ (in_range i (text_length from) h),
    draw_chars-IsFrom from (suc i) left h,
  )

  text_length-draw_chars :
      (from : String) (i left : ℕ) → text_length (draw_chars draw from i left) ≡ left
  unfolding draw_chars
  text_length-draw_chars from i zero = refl
  text_length-draw_chars from i (suc left) = ap suc (text_length-draw_chars from (suc i) left)

  nonempty : (s : String) → not (truthy s) ≡ false → 0 < text_length s
  nonempty String.[] h = cc
  nonempty (String.◌∷◌ c s) h = omega arith

  -- A password that is generated, from draws below their bound, has between 8 and 128 characters, as many
  -- as asked for within those bounds. Each is a capital letter but I and O, if those are enabled, a small
  -- letter but l and o, a digit from 2 to 9 or one of the thirteen symbols, if those are.
  pub generate_password-ok :
      (opts : PasswordOptions) (password : String)
      → generate_password draw opts ≡ ok password
      → (text_length password ≡ min 128 (max 8 opts.length))
        × (8 ≤ text_length password)
        × (text_length password ≤ 128)
        × AllAllowed opts password
  unfolding generate_password
  generate_password-ok opts password h =
      let (some_set, made) = guard-ok (not (truthy (pool opts))) _ _ h in
      let same = ok_inj made in
      let long =
        ap text_length (sym same) ∙ text_length-draw_chars (pool opts) 0 (clamped opts.length) in
      (
        long,
        omega arith,
        omega arith,
        IsFrom-AllAllowed opts password (
            subst (IsFrom (pool opts)) same (
              draw_chars-IsFrom (pool opts) 0 (clamped opts.length)
                (nonempty (pool opts) some_set))),
      )
