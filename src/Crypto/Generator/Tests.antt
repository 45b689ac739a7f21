-- ===== src/Crypto/Generator/Tests.antt =====
-- Passwords of digits.
use vault_keep.Base.{ℕ, none, ◌≤◌, min, max, true, false, ok, throw, ◌≡◌, refl, text_length}
use vault_keep.Crypto.Generator.{
  PasswordOptions, generate_password, draw_chars, generate_passphrase, draw_words,
}
use vault_keep.Crypto.Generator.Pool.{AllAllowed, generate_password-ok}

abbrev digits_only : PasswordOptions
digits_only = record {
  length = 3;
  uppercase = false;
  lowercase = false;
  numbers = true;
  symbols = false;
}

abbrev nothing_on : PasswordOptions
nothing_on = record {
  length = 3;
  uppercase = false;
  lowercase = false;
  numbers = false;
  symbols = false;
}

-- always the first character
abbrev first : ℕ → ℕ → ℕ
first i n = 0

twos : generate_password first digits_only ≡ ok "22222222"
unfolding generate_password draw_chars
twos = refl

none_enabled :
    generate_password first nothing_on ≡ throw "at least one character set must be enabled"
unfolding generate_password
none_enabled = refl

generate_password-ok_example :
    (text_length "22222222" ≡ min 128 (max 8 3))
    × (8 ≤ text_length "22222222")
    × (text_length "22222222" ≤ 128)
    × AllAllowed digits_only "22222222"
generate_password-ok_example = generate_password-ok first (λ i n h. h) digits_only "22222222" twos

four_words : generate_passphrase (λ i n. i) none none ≡ "purple-river-galaxy-hammer"
unfolding generate_passphrase draw_words
four_words = refl
