-- ===== src/Crypto/Generator/Words.antt =====
-- What a passphrase is made of.
use vault_keep.Base.{
  ℕ, zero, suc, ◌<◌, some, List, [], ◌∷◌, String, length, get_elem?, ◌≡◌, refl, ap, arith, All,
}
use vault_keep.Crypto.Generator.{words_list, draw_words}

-- One of the words.
abbrev IsWord : String → Type 0
IsWord w = (i : ℕ) × (get_elem? words_list i ≡ some w)

some_word : (i : ℕ) (xs : List String) → i < length xs → (w : String) × (get_elem? xs i ≡ some w)
some_word i [] h = absurd (omega arith)
some_word zero (x ∷ xs) h = (x, refl)
some_word (suc i) (x ∷ xs) h = some_word i xs (omega arith)

-- A passphrase has as many words as asked for, each of the list, when the draws are below their bound.
draw_words-IsWord :
    (draw : ℕ → ℕ → ℕ)
    → ((i n : ℕ) → 0 < n → draw i n < n)
    → (i left : ℕ) → (length (draw_words draw i left) ≡ left) × All IsWord (draw_words draw i left)
unfolding draw_words
draw_words-IsWord draw h i zero = (refl, tt)
draw_words-IsWord draw h i (suc left) =
    let drawn = draw i (length words_list) in
    let (w, found) = some_word drawn words_list (h i (length words_list) (omega arith)) in
    let (size, words) = draw_words-IsWord draw h (suc i) left in
    (ap suc size, ((drawn, rw found refl), words))
