-- ===== src/Crypto/Generator.antt =====
-- packages/crypto/src/generator.ts: random passwords and passphrases. `randomInt` is Node's: the
-- argument `draw` gives, for the number of the draw and its bound, what it returned.
pub mod Pool
mod Words
mod Tests
use Prim.Native.Char.{Char, code}
use Prim.Native.String
use vault_keep.Base.{
  ℕ, zero, suc, min, max, Option, none, some, Bool, true, false, not, if◌then◌else◌, List, [], ◌∷◌,
  String, ◌<>◌, Thrown, ok, throw, truthy, text_length, length, get_elem?, or_else,
}
use vault_keep.Server.Mfa.{char_at}

pub record PasswordOptions : Type 0 where
  pub length : ℕ
  pub uppercase : Bool
  pub lowercase : Bool
  pub numbers : Bool
  pub symbols : Bool

abbrev pub uppercase_set : String
uppercase_set = "ABCDEFGHJKLMNPQRSTUVWXYZ"

abbrev pub lowercase_set : String
lowercase_set = "abcdefghijkmnpqrstuvwxyz"

abbrev pub numbers_set : String
numbers_set = "23456789"

abbrev pub symbols_set : String
symbols_set = "!@#$%^&*-_=+?"

abbrev pub enabled : Bool → String → String
enabled b set = if b then set else ""

abbrev pub pool : PasswordOptions → String
pool opts =
    enabled opts.uppercase uppercase_set
    <> (enabled opts.lowercase lowercase_set
        <> (enabled opts.numbers numbers_set <> enabled opts.symbols symbols_set))

-- `Math.min(128, Math.max(8, opts.length))`
abbrev pub clamped : ℕ → ℕ
clamped n = min 128 (max 8 n)

-- The turns of the loop that are left, from the draw `i` on.
unfoldable pub draw_chars : (ℕ → ℕ → ℕ) → String → ℕ → ℕ → String
draw_chars draw from i zero = String.[]
draw_chars draw from i (suc left) =
    String.◌∷◌ (char_at from (draw i (text_length from))) (draw_chars draw from (suc i) left)

unfoldable pub generate_password : (ℕ → ℕ → ℕ) → PasswordOptions → Thrown String
generate_password draw opts =
    if not (truthy (pool opts))
    then throw "at least one character set must be enabled"
    else ok (draw_chars draw (pool opts) 0 (clamped opts.length))

abbrev pub words_list : List String
words_list =
    "purple" ∷ "river" ∷ "galaxy" ∷ "hammer" ∷ "coffee" ∷ "shadow" ∷ "maple" ∷ "rocket" ∷ "velvet"
    ∷ "candle" ∷ "pepper" ∷ "orbit" ∷ "thunder" ∷ "willow" ∷ "copper" ∷ "lantern" ∷ "marble"
    ∷ "cactus" ∷ "harbor" ∷ "comet" ∷ []

-- The draws from the `i`th on; `randomInt` is below its bound, so that a word is there.
unfoldable pub draw_words : (ℕ → ℕ → ℕ) → ℕ → ℕ → List String
draw_words draw i zero = []
draw_words draw i (suc left) =
    or_else "" (get_elem? words_list (draw i (length words_list))) ∷ draw_words draw (suc i) left

-- `parts.join(separator)`
abbrev pub join_with : String → List String → String
join_with separator [] = ""
join_with separator (p ∷ []) = p
join_with separator (p ∷ q ∷ ps) = p <> (separator <> join_with separator (q ∷ ps))

-- `words = 4` and `separator = "-"` where they are not given
unfoldable pub generate_passphrase : (ℕ → ℕ → ℕ) → Option ℕ → Option String → String
generate_passphrase draw words separator =
    join_with (or_else "-" separator) (draw_words draw 0 (or_else 4 words))
