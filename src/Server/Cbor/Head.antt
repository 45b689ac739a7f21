-- ===== src/Server/Cbor/Head.antt =====
-- The head of an item: what `write_head` writes, `read_length` reads, below 2 ^ 32.
use vault_keep.Base.{
  ℕ, zero, suc, ◌+◌, ◌*◌, ◌/◌, ◌%◌, ◌^◌, ◌<◌, Option, some, false, List, [], ◌∷◌, ◌++◌, ◌≡◌, ◌∙◌,
  ap, refl, arith, ltb, lt→ltb, ltb→lt, length, drop, get_elem?, Thrown, ok, Bool-cases, inl, inr,
  or_else,
}
use vault_keep.Server.Cbor.{
  Length, known, Position, bits_at, byte_at, read_length, write_head, one_byte, four_bytes,
  is_at_end,
}

suc_add : (a i : ℕ) → suc a + i ≡ suc (a + i)
suc_add a i = omega arith

zero_add : (i : ℕ) → 0 + i ≡ i
zero_add i = omega arith

-- What stands in the buffer at a place and after it.
get_elem?-drop : (buf : List ℕ) (a i : ℕ) → get_elem? buf (a + i) ≡ get_elem? (drop a buf) i
get_elem?-drop buf zero i = ap (get_elem? buf) (zero_add i)
get_elem?-drop [] (suc a) i = refl
get_elem?-drop (x ∷ xs) (suc a) i = ap (get_elem? (x ∷ xs)) (suc_add a i) ∙ get_elem?-drop xs a i

pub drop-add : (buf : List ℕ) (a n : ℕ) → drop (a + n) buf ≡ drop n (drop a buf)
drop-add buf zero n = ap (λ k. drop k buf) (zero_add n)
drop-add [] (suc a) zero = ap (λ k. drop k []) (suc_add a zero)
drop-add [] (suc a) (suc n) = ap (λ k. drop k []) (suc_add a (suc n))
drop-add (x ∷ xs) (suc a) n = ap (λ k. drop k (x ∷ xs)) (suc_add a n) ∙ drop-add xs a n

byte_is :
    (buf xs : List ℕ) (a i j : ℕ)
    → drop a buf ≡ xs
    → j ≡ a + i
    → byte_at buf (some j) ≡ get_elem? xs i
byte_is buf xs a i j h e =
    ap (get_elem? buf) e ∙ get_elem?-drop buf a i ∙ ap (λ ys. get_elem? ys i) h

-- There is a byte at `a`.
not_at_end : (buf xs : List ℕ) (a b : ℕ) → drop a buf ≡ b ∷ xs → is_at_end buf (some a) ≡ false
not_at_end [] xs zero b h = cc
not_at_end [] xs (suc a) b h = cc
not_at_end (x ∷ buf) xs zero b h = ground arith
not_at_end (x ∷ buf) xs (suc a) b h = let ih = not_at_end buf xs a b h in ground (arith, ih)

-- A head that is read: the byte at `a` is there, has the major type, and gives the length.
abbrev pub Reads : List ℕ → ℕ → ℕ → ℕ → ℕ → Type 0
Reads buf a major n size =
    (is_at_end buf (some a) ≡ false)
    × (bits_at buf (some a) / 32 ≡ major)
    × (read_length buf (some (a + 1)) (bits_at buf (some a) % 32) ≡ ok (known n, some (a + size)))

value_of_four :
    (n : ℕ)
    → n < 2 ^ 32
    → (n / 2 ^ 24) % 256 * 2 ^ 24
        + ((n / 2 ^ 16) % 256 * 2 ^ 16 + (n / 2 ^ 8) % 256 * 2 ^ 8 + n % 256)
      ≡ n
value_of_four n h = omega arith

four :
    (n x y z : ℕ) (o : Option ℕ) (p : Position)
    → n < 2 ^ 32
    → o ≡ some ((n / 2 ^ 24) % 256)
    → x ≡ (n / 2 ^ 16) % 256
    → y ≡ (n / 2 ^ 8) % 256
    → z ≡ n % 256
    → ◌≡◌ {A = Thrown (Length × Position)}
        (ok (four_bytes o (x * 2 ^ 16 + y * 2 ^ 8 + z), p))
        (ok (known n, p))
four n x y z o p h e1 e2 e3 e4 =
    ap (λ (q : Option ℕ). ok (four_bytes q (x * 2 ^ 16 + y * 2 ^ 8 + z), p)) e1
    ∙ ap (λ (m : ℕ). ok (known m, p)) (omega (arith, value_of_four n h))

module _ (buf rest : List ℕ) (a major n : ℕ) where
  first_is : (b : ℕ) (xs : List ℕ) → drop a buf ≡ b ∷ xs → bits_at buf (some a) ≡ b
  first_is b xs h = ap (or_else 0) (byte_is buf (b ∷ xs) a 0 a h (omega arith))

  Reads-0 : n < 24 → drop a buf ≡ (major * 32 + n) ∷ rest → Reads buf a major n 1
  unfolding read_length
  Reads-0 hn h =
      let b = first_is (major * 32 + n) rest h in
      let info : (major * 32 + n) % 32 ≡ n = omega arith in
      (
        not_at_end buf rest a (major * 32 + n) h,
        ap (λ x. x / 32) b ∙ omega arith,
        ap (λ x. read_length buf (some (a + 1)) (x % 32)) b
            ∙ ap (read_length buf (some (a + 1))) info
            ∙ rw (lt→ltb n 24 hn) refl,
      )

  Reads-1 : drop a buf ≡ (major * 32 + 24) ∷ n ∷ rest → Reads buf a major n 2
  unfolding read_length
  Reads-1 h =
      let b = first_is (major * 32 + 24) (n ∷ rest) h in
      let info : (major * 32 + 24) % 32 ≡ 24 = omega arith in
      let second = byte_is buf ((major * 32 + 24) ∷ n ∷ rest) a 1 (a + 1) h (omega arith) in
      (
        not_at_end buf (n ∷ rest) a (major * 32 + 24) h,
        ap (λ x. x / 32) b ∙ omega arith,
        ap (λ x. read_length buf (some (a + 1)) (x % 32)) b
            ∙ ap (read_length buf (some (a + 1))) info
            ∙ ap (λ (o : Option ℕ). ok (one_byte o, some (a + 1 + 1))) second
            ∙ ap (λ (p : ℕ). ok (known n, some p)) (omega arith),
      )

  Reads-2 : drop a buf ≡ (major * 32 + 25) ∷ n / 256 ∷ n % 256 ∷ rest → Reads buf a major n 3
  unfolding read_length
  Reads-2 h =
      let xs = (major * 32 + 25) ∷ n / 256 ∷ n % 256 ∷ rest in
      let b = first_is (major * 32 + 25) (n / 256 ∷ n % 256 ∷ rest) h in
      let info : (major * 32 + 25) % 32 ≡ 25 = omega arith in
      let b1 = ap (or_else 0) (byte_is buf xs a 1 (a + 1) h (omega arith)) in
      let b2 = ap (or_else 0) (byte_is buf xs a 2 (a + 1 + 1) h (omega arith)) in
      (
        not_at_end buf (n / 256 ∷ n % 256 ∷ rest) a (major * 32 + 25) h,
        ap (λ x. x / 32) b ∙ omega arith,
        ap (λ x. read_length buf (some (a + 1)) (x % 32)) b
            ∙ ap (read_length buf (some (a + 1))) info
            ∙ ap
                (λ (x : ℕ).
                  ok (known (x * 2 ^ 8 + bits_at buf (some (a + 1 + 1))), some (a + 1 + 2)))
                b1
            ∙ ap (λ (x : ℕ). ok (known (n / 256 * 2 ^ 8 + x), some (a + 1 + 2))) b2
            ∙ ap (λ (x : ℕ). ok (known x, some (a + 1 + 2))) (omega arith)
            ∙ ap (λ (p : ℕ). ok (known n, some p)) (omega arith),
      )

  Reads-4 :
      n < 2 ^ 32
      → drop a buf
        ≡ (major * 32 + 26)
          ∷ (n / 2 ^ 24) % 256
          ∷ (n / 2 ^ 16) % 256
          ∷ (n / 2 ^ 8) % 256
          ∷ n % 256
          ∷ rest
      → Reads buf a major n 5
  unfolding read_length
  Reads-4 hn h =
      let tail = (n / 2 ^ 24) % 256 ∷ (n / 2 ^ 16) % 256 ∷ (n / 2 ^ 8) % 256 ∷ n % 256 ∷ rest in
      let b = first_is (major * 32 + 26) tail h in
      let info : (major * 32 + 26) % 32 ≡ 26 = omega arith in
      let at = byte_is buf ((major * 32 + 26) ∷ tail) a in
      let b1 = at 1 (a + 1) h (omega arith) in
      let b2 = ap (or_else 0) (at 2 (a + 1 + 1) h (omega arith)) in
      let b3 = ap (or_else 0) (at 3 (a + 1 + 2) h (omega arith)) in
      let b4 = ap (or_else 0) (at 4 (a + 1 + 3) h (omega arith)) in
      (
        not_at_end buf tail a (major * 32 + 26) h,
        ap (λ x. x / 32) b ∙ omega arith,
        ap (λ x. read_length buf (some (a + 1)) (x % 32)) b
            ∙ ap (read_length buf (some (a + 1))) info
            ∙ four n (bits_at buf (some (a + 1 + 1))) (bits_at buf (some (a + 1 + 2)))
                (bits_at buf (some (a + 1 + 3))) _ _ hn b1 b2 b3 b4
            ∙ ap (λ (p : ℕ). ok (known n, some p)) (omega arith),
      )

  -- What `write_head` writes is read back, whatever its size.
  pub write_head-Reads :
      n < 2 ^ 32
      → drop a buf ≡ write_head major n ++ rest
      → Reads buf a major n (length (write_head major n))
  unfolding write_head
  write_head-Reads hn h = elim (Bool-cases (ltb n 24)) [
    | inl e1 ↦ rw e1 (Reads-0 (ltb→lt n 24 e1) (rw e1 at h))
    | inr e1 ↦ elim (Bool-cases (ltb n 256)) [
      | inl e2 ↦ rw (e1, e2) (Reads-1 (rw (e1, e2) at h))
      | inr e2 ↦ elim (Bool-cases (ltb n 65536)) [
        | inl e3 ↦ rw (e1, e2, e3) (Reads-2 (rw (e1, e2, e3) at h))
        | inr e3 ↦ rw (e1, e2, e3) (Reads-4 hn (rw (e1, e2, e3) at h))
      ]
    ]
  ]

pub write_head_nonempty : (major n : ℕ) → 0 < length (write_head major n)
unfolding write_head
write_head_nonempty major n = elim (Bool-cases (ltb n 24)) [
  | inl e1 ↦ rw e1 (omega arith)
  | inr e1 ↦ elim (Bool-cases (ltb n 256)) [
    | inl e2 ↦ rw (e1, e2) (omega arith)
    | inr e2 ↦ elim (Bool-cases (ltb n 65536)) [
      | inl e3 ↦ rw (e1, e2, e3) (omega arith)
      | inr e3 ↦ rw (e1, e2, e3) (omega arith)
    ]
  ]
]
