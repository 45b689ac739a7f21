-- ===== src/Server/Cbor/Fuel.antt =====
-- How far the decoder goes, and the fuel it needs.
use vault_keep.Base.{
  ℕ, zero, suc, ◌+◌, ◌-◌, ◌/◌, ◌%◌, ◌≤◌, ◌<◌, none, some, Bool, true, false, if◌then◌else◌, ◌==◌,
  List, ◌≡◌, ◌≢◌, refl, arith, leb, ltb, length, String, Thrown, ok, throw, Bool-cases, inl, inr,
}
use vault_keep.Server.Cbor.{
  CborValue, CborEntries, Run, returned, thrown, out_of_fuel, and_then, run_of, Position, add,
  Length, known, missing, not_a_number, read_length, end_of, is_past, turns, key_of, set_entry,
  decode_items, decode_entries, decode_major, decode_item, decode_cbor, decode_cbor_first, is_end,
  no_entries, bits_at,
}

-- The position is not before the other, and NaN stays NaN.
abbrev pub Ahead : Position → Position → Type 0
Ahead at none = Unit
Ahead none (some b) = ⊥
Ahead (some a) (some b) = a ≤ b

-- The run does not use up its fuel, and leaves a position that is not before `at`.
abbrev pub Ends : {A : Type 0} → Position → Run (A × Position) → Type 0
Ends at (returned (v, next)) = Ahead at next
Ends at (thrown e) = Unit
Ends at out_of_fuel = ⊥

Ahead-trans : (a b c : Position) → Ahead a b → Ahead b c → Ahead a c
Ahead-trans a b none h k = tt
Ahead-trans none none (some c) h k = k
Ahead-trans none (some b) (some c) h k = absurd h
Ahead-trans (some a) none (some c) h k = absurd k
Ahead-trans (some a) (some b) (some c) h k = omega arith

Ahead-refl : (a : Position) → Ahead a a
Ahead-refl none = tt
Ahead-refl (some a) = omega arith

Ahead-add : (a : Position) (n : ℕ) → Ahead a (add a n)
Ahead-add none n = tt
Ahead-add (some a) n = omega arith

Ends-weaken :
    {A : Type 0} (a b : Position) (r : Run (A × Position)) → Ahead a b → Ends b r → Ends a r
Ends-weaken a b (returned (v, next)) h k = Ahead-trans a b next h k
Ends-weaken a b (thrown e) h k = tt
Ends-weaken a b out_of_fuel h k = absurd k

-- A sequence of runs ends, if the second does from wherever the first one leaves off.
Ends-and_then :
    {A B : Type 0} (at : Position) (r : Run (A × Position)) (f : A × Position → Run (B × Position))
    → Ends at r
    → ((v : A) (next : Position) → Ahead at next → Ends next (f (v, next)))
    → Ends at (and_then r f)
Ends-and_then at (returned (v, next)) f h k = Ends-weaken at next (f (v, next)) h (k v next h)
Ends-and_then at (thrown e) f h k = tt
Ends-and_then at out_of_fuel f h k = absurd h

Ends-run_of :
    {A B : Type 0} (at : Position) (r : Thrown A) (f : A → Run (B × Position))
    → ((v : A) → Ends at (f v))
    → Ends at (and_then (run_of r) f)
Ends-run_of at (ok v) f k = k v
Ends-run_of at (throw e) f k = tt

-- Every run from `from` on ends.
abbrev EndsFrom : Position → (Position → Run (CborValue × Position)) → Type 0
EndsFrom from decode = (at : Position) → Ahead from at → Ends at (decode at)

decode_items-Ends :
    (decode : Position → Run (CborValue × Position)) (from : Position)
    → EndsFrom from decode
    → (n : ℕ) (cur : Position) → Ahead from cur
    → Ends cur (decode_items decode n cur)
unfolding decode_items
decode_items-Ends decode from h zero none a = tt
decode_items-Ends decode from h zero (some c) a = omega arith
decode_items-Ends decode from h (suc n) cur a =
    Ends-and_then cur (decode cur) _ (h cur a) λ v next b.
      Ends-and_then next (decode_items decode n next) _
        (decode_items-Ends decode from h n next (Ahead-trans from cur next a b))
        (λ vs last c. Ahead-refl last)

decode_entries-Ends :
    (decode : Position → Run (CborValue × Position)) (from : Position)
    → EndsFrom from decode
    → (n : ℕ) (es : CborEntries) (cur : Position) → Ahead from cur
    → Ends cur (decode_entries decode n es cur)
unfolding decode_entries
decode_entries-Ends decode from h zero es cur a = Ahead-refl cur
decode_entries-Ends decode from h (suc n) es cur a =
    Ends-and_then cur (decode cur) _ (h cur a) λ k next b. Ends-run_of next (key_of k) _ λ key.
      let a' = Ahead-trans from cur next a b in
      Ends-and_then next (decode next) _ (h next a') λ v last c.
        decode_entries-Ends decode from h n (set_entry key v es) last
          (Ahead-trans from next last a' c)

Ahead-end_of : (offset : Position) (len : Length) → Ahead offset (end_of offset len)
Ahead-end_of offset (known n) = Ahead-add offset n
Ahead-end_of offset missing = tt
Ahead-end_of offset not_a_number = tt

-- A choice ends if both of its runs do.
Ends-if :
    {A : Type 0} (at : Position) (b : Bool) (x y : Run (A × Position))
    → Ends at x
    → Ends at y
    → Ends at (if b then x else y)
Ends-if at true x y hx hy = hx
Ends-if at false x y hx hy = hy

Ends-if-run :
    {A : Type 0} (at : Position) (b : Bool) (x y : Thrown (A × Position))
    → Ends at (run_of x)
    → Ends at (run_of y)
    → Ends at (run_of (if b then x else y))
Ends-if-run at true x y hx hy = hx
Ends-if-run at false x y hx hy = hy

checked :
    (b : Bool) (v : CborValue)
    → (if b then returned v else thrown "cbor: trailing bytes") ≢ out_of_fuel
checked true v e = cc
checked false v e = cc

not-leb : (a b : ℕ) → leb a b ≡ false → b < a
not-leb a b h = ground arith

module _ (from_utf8 : List ℕ → String) (buf : List ℕ) where
  decode_major-Ends :
      (decode : Position → Run (CborValue × Position)) (major : ℕ) (len : Length)
      (offset : Position)
      → EndsFrom offset decode
      → Ends offset (decode_major from_utf8 buf decode major len offset)
  unfolding decode_major
  decode_major-Ends decode major len offset h =
      Ends-if offset (major == 0) _ _ (Ahead-refl offset) (
        Ends-if offset (major == 1) _ _ (Ahead-refl offset) (
          Ends-if offset (major == 2) _ _
            (Ends-if offset (is_past buf (end_of offset len)) _ _ tt (Ahead-end_of offset len))
            (Ends-if offset (major == 3) _ _
              (Ends-if offset (is_past buf (end_of offset len)) _ _ tt (Ahead-end_of offset len))
              (Ends-if offset (major == 4) _ _
                (Ends-and_then offset (decode_items decode (turns len) offset) _
                  (decode_items-Ends decode offset h (turns len) offset (Ahead-refl offset))
                  (λ vs last c. Ahead-refl last))
                (Ends-if offset (major == 5) _ _
                  (Ends-and_then offset (decode_entries decode (turns len) no_entries offset) _
                    (decode_entries-Ends decode offset h (turns len) no_entries offset
                      (Ahead-refl offset))
                    (λ vs last c. Ahead-refl last))
                  (Ends-if offset (major == 6) _ _ tt tt))))))

  -- The fuel is more than the bytes that are left.
  abbrev pub Enough : ℕ → Position → Type 0
  Enough fuel none = 0 < fuel
  Enough fuel (some a) = length buf - a < fuel

  read_length-Ends : (at : Position) (info : ℕ) → Ends at (run_of (read_length buf at info))
  unfolding read_length
  read_length-Ends at info = Ends-if-run at (ltb info 24) _ _ (Ahead-refl at) (
      Ends-if-run at (info == 24) _ _ (Ahead-add at 1) (
        Ends-if-run at (info == 25) _ _ (Ahead-add at 2)
          (Ends-if-run at (info == 26) _ _ (Ahead-add at 4) tt)))

  Enough-later :
      (fuel a : ℕ) (next : Position)
      → a < length buf
      → length buf - a < suc fuel
      → Ahead (some (a + 1)) next
      → Enough fuel next
  Enough-later fuel a none h e k = omega arith
  Enough-later fuel a (some b) h e k = omega arith

  decode_item-Ends :
      (fuel : ℕ) (at : Position) → Enough fuel at → Ends at (decode_item from_utf8 fuel buf at)
  unfolding decode_item read_length decode_major
  decode_item-Ends zero none h = absurd (omega arith)
  decode_item-Ends zero (some a) h = absurd (omega arith)
  decode_item-Ends (suc fuel) none h = tt
  decode_item-Ends (suc fuel) (some a) h = elim (Bool-cases (leb (length buf) a)) [
    | inl e ↦ rw e tt
    | inr e ↦ rw e (
        Ends-weaken (some a) (some (a + 1)) _ (omega arith) (
          Ends-and_then (some (a + 1))
            (run_of (read_length buf (some (a + 1)) (bits_at buf (some a) % 32))) _
            (read_length-Ends (some (a + 1)) (bits_at buf (some a) % 32))
            (λ len offset k.
              decode_major-Ends (decode_item from_utf8 fuel buf) (bits_at buf (some a) / 32) len
                offset
                (λ next l. decode_item-Ends fuel next (
                  Enough-later fuel a next (not-leb (length buf) a e) h
                    (Ahead-trans (some (a + 1)) offset next k l))))))
  ]

  not-out_of_fuel :
      {A : Type 0} (at : Position) (r : Run (A × Position)) → Ends at r → r ≢ out_of_fuel
  not-out_of_fuel at (returned x) h e = cc
  not-out_of_fuel at (thrown x) h e = cc
  not-out_of_fuel at out_of_fuel h e = h

  trailing :
      (r : Run (CborValue × Position))
      → r ≢ out_of_fuel
      → and_then r (λ (v, rest).
        if is_end from_utf8 buf rest then returned v else thrown "cbor: trailing bytes")
        ≢ out_of_fuel
  trailing (returned (v, rest)) h e = checked (is_end from_utf8 buf rest) v e
  trailing (thrown x) h e = cc
  trailing out_of_fuel h e = h refl

  -- On every buffer, whatever its bytes say, the decoder returns a value or throws: the fuel that it is
  -- given, one more than the bytes there are, is never used up.
  pub decode_cbor-ends :
      (decode_cbor from_utf8 buf ≢ out_of_fuel) × (decode_cbor_first from_utf8 buf ≢ out_of_fuel)
  unfolding decode_cbor decode_cbor_first
  decode_cbor-ends =
      let ends =
        not-out_of_fuel (some 0) _ (decode_item-Ends (length buf + 1) (some 0) (omega arith)) in
      (trailing _ ends, ends)
