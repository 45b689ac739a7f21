-- ===== src/Base/Keyed.antt =====
-- Records in an array, found by a key: what the JSON file store does with `find`, `findIndex`,
-- `push` and `filter`.
use Prim.Native.String.{String}
use mathlib.Core.Path.{◌≡◌, refl}
use mathlib.Core.Logic.{◌↔◌}
use mathlib.Core.Bool.{Bool, true, not, ◌&&◌}
use mathlib.Core.Option.{Option, none, some}
use mathlib.Core.List.{List, [], ◌∷◌, ◌++◌}
use native.Mathlib.Omega.{arith}
use text.Mathlib.Text.{◌==◌ as str_eq}
use text.Mathlib.TextEquality.{eq_iff}
use vault_keep.Base.Tests.{if◌then◌else◌}
use vault_keep.Base.Lists.{set, filter, find?, find_index}

-- A type with JavaScript's `===`.
pub record Eq {ℓ} (K : Type ℓ) : Type ℓ where
  pub eqb : K → K → Bool
  pub eqb_iff : (a b : K) → (eqb a b ≡ true) ↔ (a ≡ b)

instance abbrev pub string_eq : Eq String
string_eq = record { eqb = str_eq; eqb_iff = eq_iff }

abbrev pub pair_eqb : String × String → String × String → Bool
pair_eqb a b = str_eq a.0 b.0 && str_eq a.1 b.1

pub pair_eqb_iff : (a b : String × String) → (pair_eqb a b ≡ true) ↔ (a ≡ b)
pair_eqb_iff (u, i) (v, j) = ground (arith, eq_iff u v, eq_iff i j)

instance abbrev pub pair_eq : Eq (String × String)
pair_eq = record { eqb = pair_eqb; eqb_iff = pair_eqb_iff }

module _ {ℓ κ} {A : Type ℓ} {K : Type κ} ⦃e : Eq K⦄ (key : A → K) where
  -- `rows.find((x) => key(x) === k)`
  abbrev pub find_key : K → List A → Option A
  find_key k = find? (λ x. e.eqb (key x) k)

  -- `const i = rows.findIndex(...); if (i >= 0) rows[i] = x; else rows.push(x);`
  unfoldable pub upsert : A → List A → List A
  upsert x xs = elim (find_index (λ y. e.eqb (key y) (key x)) xs) [
    | none ↦ xs ++ x ∷ []
    | some i ↦ set xs i x
  ]

  -- `const i = rows.findIndex(...); if (i >= 0) rows[i] = x;`
  unfoldable pub replace_row : A → List A → List A
  replace_row x xs = elim (find_index (λ y. e.eqb (key y) (key x)) xs) [
    | none ↦ xs
    | some i ↦ set xs i x
  ]

  -- `rows = rows.filter((x) => !(key(x) === k))`
  abbrev pub without : K → List A → List A
  without k = filter (λ x. not (e.eqb (key x) k))

  pub upsert-nil : (x : A) → upsert x [] ≡ x ∷ []
  unfolding upsert
  upsert-nil x = refl

  pub upsert-cons :
      (x y : A) (ys : List A)
      → upsert x (y ∷ ys) ≡ (if e.eqb (key y) (key x) then x ∷ ys else y ∷ upsert x ys)
  unfolding upsert
  upsert-cons x y ys = ground arith

  pub find_key-upsert :
      (k : K) (x : A) (xs : List A)
      → find_key k (upsert x xs) ≡ (if e.eqb (key x) k then some x else find_key k xs)
  find_key-upsert k x [] = rw upsert-nil
  find_key-upsert k x (y ∷ ys) = ground (
    arith,
    upsert-cons x y ys,
    find_key-upsert k x ys,
    e.eqb_iff (key y) (key x),
    e.eqb_iff (key x) k,
    e.eqb_iff (key y) k,
  )

  pub find_key-without :
      (k j : K) (xs : List A)
      → find_key k (without j xs) ≡ (if e.eqb j k then none else find_key k xs)
  find_key-without k j [] = ground arith
  find_key-without k j (y ∷ ys) =
      ground
        (arith, find_key-without k j ys, e.eqb_iff (key y) j, e.eqb_iff j k, e.eqb_iff (key y) k)

  pub find_key-append :
      (k : K) (xs : List A) (x : A)
      → find_key k (xs ++ x ∷ [])
        ≡ elim (find_key k xs) [ some y ↦ some y | none ↦ if e.eqb (key x) k then some x else none ]
  find_key-append k [] x = refl
  find_key-append k (y ∷ ys) x = ground (arith, find_key-append k ys x)

  -- A row that is found has the key.
  pub find_key-key : (k : K) (xs : List A) {x : A} → find_key k xs ≡ some x → key x ≡ k
  find_key-key k [] h = cc
  find_key-key k (y ∷ ys) {x} h =
      ground
        (arith, λ (p : find_key k ys ≡ some x). find_key-key k ys {x = x} p, e.eqb_iff (key y) k)

  -- A row pushed under a key that was not there.
  pub find_key-push :
      (k : K) (xs : List A) (x : A)
      → find_key (key x) xs ≡ none
      → find_key k (xs ++ x ∷ []) ≡ (if e.eqb (key x) k then some x else find_key k xs)
  find_key-push k [] x fresh = refl
  find_key-push k (y ∷ ys) x fresh = ground (
    arith,
    find_key-push k ys x,
    e.eqb_iff (key x) k,
    e.eqb_iff (key y) k,
    e.eqb_iff (key y) (key x),
  )

  replace_row-cons :
      (x y : A) (ys : List A)
      → replace_row x (y ∷ ys) ≡ (if e.eqb (key y) (key x) then x ∷ ys else y ∷ replace_row x ys)
  unfolding replace_row
  replace_row-cons x y ys = ground arith

  -- A row replaced under a key that is there.
  pub find_key-replace_row :
      (k : K) (x : A) (xs : List A) {y : A}
      → find_key (key x) xs ≡ some y
      → find_key k (replace_row x xs) ≡ (if e.eqb (key x) k then some x else find_key k xs)
  find_key-replace_row k x [] h = cc
  find_key-replace_row k x (z ∷ zs) {y} h = ground (
    arith,
    replace_row-cons x z zs,
    λ (p : find_key (key x) zs ≡ some y). find_key-replace_row k x zs {y = y} p,
    e.eqb_iff (key x) k,
    e.eqb_iff (key z) k,
    e.eqb_iff (key z) (key x),
  )
