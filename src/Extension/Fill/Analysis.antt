-- ===== src/Extension/Fill/Analysis.antt =====
-- What the form analysis may change.
use vault_keep.Base.{
  ℕ, zero, suc, Option, none, some, Bool, List, [], ◌∷◌, map, String, ◌≡◌, ◌∙◌, ap, sym, refl, inl,
  inr, set, get_elem?, find_index, any, Bool-cases, is_some, or_else, subst,
}
use vault_keep.Extension.Fill.{
  Runtime, FieldKind, username, password, email, otp, unknown, FormField, TypedField, is_password,
  walk_kind, walk_at, walk_back, relabel, typed_as, analyze_form,
}

-- The fields are the same, but that one unknown field may have become the username.
pub data Relabelled : List TypedField → List TypedField → Type 0 where
  same : (fs : List TypedField) → Relabelled fs fs
  named :
      (ref : String) (fs : List TypedField)
      → Relabelled
          (record { ref = ref; kind = unknown } ∷ fs)
          (record { ref = ref; kind = username } ∷ fs)
  later :
      (f : TypedField) {fs gs : List TypedField} → Relabelled fs gs → Relabelled (f ∷ fs) (f ∷ gs)

set-Relabelled :
    (fs : List TypedField) (i : ℕ) (ref : String)
    → get_elem? fs i ≡ some (record { ref = ref; kind = unknown })
    → Relabelled fs (set fs i (record { ref = ref; kind = username }))
set-Relabelled [] i ref h = same []
set-Relabelled (f ∷ fs) zero ref h =
    subst (λ (x : TypedField). Relabelled (x ∷ fs) (record { ref = ref; kind = username } ∷ fs))
      (sym (ap (or_else f) h)) (named ref fs)
set-Relabelled (f ∷ fs) (suc i) ref h = later f (set-Relabelled fs i ref h)

walk_kind-Relabelled :
    (fs gs : List TypedField) (i : ℕ) (ref : String) (kind : FieldKind)
    → get_elem? fs i ≡ some (record { ref = ref; kind = kind })
    → Relabelled fs gs
    → Relabelled fs (walk_kind fs i ref kind gs)
walk_kind-Relabelled fs gs i ref unknown h r = set-Relabelled fs i ref h
walk_kind-Relabelled fs gs i ref username h r = same fs
walk_kind-Relabelled fs gs i ref email h r = same fs
walk_kind-Relabelled fs gs i ref password h r = r
walk_kind-Relabelled fs gs i ref otp h r = r

walk_at-Relabelled :
    (fs gs : List TypedField) (i : ℕ) (o : Option TypedField)
    → get_elem? fs i ≡ o
    → Relabelled fs gs
    → Relabelled fs (walk_at fs i o gs)
walk_at-Relabelled fs gs i none h r = r
walk_at-Relabelled fs gs i (some f) h r = walk_kind-Relabelled fs gs i f.ref f.kind h r

walk_back-Relabelled : (fs : List TypedField) (n : ℕ) → Relabelled fs (walk_back fs n)
unfolding walk_back
walk_back-Relabelled fs zero = same fs
walk_back-Relabelled fs (suc i) =
    walk_at-Relabelled fs (walk_back fs i) i (get_elem? fs i) refl (walk_back-Relabelled fs i)

relabel-Relabelled : (fs : List TypedField) (o : Option ℕ) → Relabelled fs (relabel fs o).fields
relabel-Relabelled fs none = same fs
relabel-Relabelled fs (some i) = walk_back-Relabelled fs i

relabel-has_password :
    (fs : List TypedField) (o : Option ℕ) → (relabel fs o).has_password ≡ is_some o
relabel-has_password fs none = refl
relabel-has_password fs (some i) = refl

is_some-counted :
    (o : Option ℕ)
    → is_some (elim o as (λ x. Option ℕ) [ none ↦ none | some i ↦ some (suc i) ]) ≡ is_some o
is_some-counted none = refl
is_some-counted (some i) = refl

find_index-any :
    (p : TypedField → Bool) (fs : List TypedField) → is_some (find_index p fs) ≡ any p fs
find_index-any p [] = refl
find_index-any p (f ∷ fs) = elim (Bool-cases (p f)) [
  | inl e ↦ rw e refl
  | inr e ↦ rw e (is_some-counted (find_index p fs) ∙ find_index-any p fs)
]

-- The analysis gives the fields of the form as they are classified, but that one unknown field may
-- have become the username; and it finds a password just when some field is classified as one.
pub analyze_form_lem :
    (rt : Runtime) (fields : List FormField)
    → Relabelled (map (typed_as rt) fields) (analyze_form rt fields).fields
      × ((analyze_form rt fields).has_password ≡ any is_password (map (typed_as rt) fields))
unfolding analyze_form
analyze_form_lem rt fields =
    let typed = map (typed_as rt) fields in
    (relabel-Relabelled typed _, relabel-has_password typed _ ∙ find_index-any is_password typed)
