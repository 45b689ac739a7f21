-- ===== src/Extension/Fill/Guarded.antt =====
-- The choke point: `plan_fill` writes a password only into the page that the credential belongs to.
use mathlib.Core.List.{Memᴰ}
use vault_keep.Base.{
  Option, none, some, Bool, true, false, not, if◌then◌else◌, List, [], ◌∷◌, String, All, All-append,
  ◌≡◌, ap, subst, ◌≢◌, refl, ◌↔◌, ◌⊎◌, inl, inr, arith, eq_iff, truthy, or_else, Bool-cases,
}
use vault_keep.Extension.Fill.{
  Url, Runtime, Credential, present, Safety, safe, unsafe, compare_urls, is_autofill_safe,
  FieldKind, username, password, email, otp, unknown, TypedField, AnalyzedForm, Write, FillPlan,
  fill, blocked, value_for, write_field, writes_for, plan_writes, plan_safe, plan_fill,
}

-- Both addresses parse, to the same host, and the page is HTTPS.
abbrev pub IsSecure : Runtime → String → String → Type 0
IsSecure rt stored_url page_origin =
    (stored : Url) × (current : Url) × (rt.parse_url stored_url ≡ some stored)
    × (rt.parse_url page_origin ≡ some current)
    × (stored.hostname ≡ current.hostname)
    × (current.protocol ≡ "https:")

compare_urls-safe :
    (s c : Url)
    → (compare_urls (some s) (some c) ≡ safe)
      ↔ ((s.hostname ≡ c.hostname) × (c.protocol ≡ "https:"))
compare_urls-safe s c = ground (arith, eq_iff s.hostname c.hostname, eq_iff c.protocol "https:")

secure :
    (s c : Option Url)
    → compare_urls s c ≡ safe
    → (stored : Url) × (current : Url) × (s ≡ some stored)
      × (c ≡ some current)
      × (stored.hostname ≡ current.hostname)
      × (current.protocol ≡ "https:")
secure none c h = cc
secure (some s) none h = cc
secure (some s) (some c) h =
    let (host, https) = (compare_urls-safe s c).0 h in (s, c, refl, refl, host, https)

-- The guard passes just the pages for which both addresses parse, to the same host, and the page is
-- HTTPS.
pub is_autofill_safe_lem :
    (rt : Runtime) (stored_url page_origin : String)
    → (is_autofill_safe rt stored_url page_origin ≡ safe) ↔ IsSecure rt stored_url page_origin
unfolding is_autofill_safe
is_autofill_safe_lem rt stored_url page_origin = (
  secure (rt.parse_url stored_url) (rt.parse_url page_origin),
  λ (s, c, hs, hc, host, https). rw (hs, hc) ((compare_urls-safe s c).1 (host, https)),
)

-- The write puts the username into a username or email field of the form, or the password into a
-- password field of it.
abbrev pub IsIntended : List TypedField → Credential → Write → Type 0
IsIntended fields c w =
    (f : TypedField) × Memᴰ f fields
    × (f.ref ≡ w.ref)
    × (((c.username ≡ some w.value) × ((f.kind ≡ username) ⊎ (f.kind ≡ email)))
        ⊎ ((c.password ≡ some w.value) × (f.kind ≡ password)))

abbrev written : FillPlan → List Write
written (blocked reason) = []
written (fill writes) = writes

meant :
    (c : Credential) (kind : FieldKind) (v : String)
    → value_for c kind ≡ some v
    → ((c.username ≡ some v) × ((kind ≡ username) ⊎ (kind ≡ email)))
      ⊎ ((c.password ≡ some v) × (kind ≡ password))
meant c username v h = inl (h, inl refl)
meant c email v h = inl (h, inr refl)
meant c password v h = inr (h, refl)
meant c otp v h = cc
meant c unknown v h = cc

intended :
    (fields : List TypedField) (c : Credential) (f : TypedField) (o : Option String)
    → Memᴰ f fields
    → value_for c f.kind ≡ o
    → All (IsIntended fields c) (write_field f.ref o)
intended fields c f none hf ho = tt
intended fields c f (some v) hf ho = elim (Bool-cases (truthy v)) [
  | inl e ↦ rw e ((f, hf, refl, meant c f.kind v ho), tt)
  | inr e ↦ rw e tt
]

All-IsIntended :
    (fields fs : List TypedField) (c : Credential)
    → ((f : TypedField) → Memᴰ f fs → Memᴰ f fields)
    → All (IsIntended fields c) (writes_for c fs)
unfolding writes_for
All-IsIntended fields [] c h = tt
All-IsIntended fields (f ∷ fs) c h =
    All-append (IsIntended fields c) (write_field f.ref (value_for c f.kind)) (writes_for c fs)
      (intended fields c f (value_for c f.kind) (h f (Memᴰ.head refl)) refl)
      (All-IsIntended fields fs c (λ g hg. h g (Memᴰ.tail hg)))

plan_writes-fill :
    (ws writes : List Write) → plan_writes ws ≡ fill writes → (ws ≡ writes) × (writes ≢ [])
plan_writes-fill [] writes h = cc
plan_writes-fill (w ∷ ws) writes h = (ap written h, λ e. cc)

plan_safe-fill :
    (form : AnalyzedForm) (c : Credential) (s : Safety) (writes : List Write)
    → plan_safe form c s ≡ fill writes
    → (s ≡ safe) × (writes_for c form.fields ≡ writes) × (writes ≢ [])
plan_safe-fill form c (unsafe r) writes h = cc
plan_safe-fill form c safe writes h =
    let (same, some_write) = plan_writes-fill (writes_for c form.fields) writes h in
    (refl, same, some_write)

planned :
    (b : Bool) (plan : FillPlan) (writes : List Write)
    → (if not b then blocked "credential has no associated URL" else plan) ≡ fill writes
    → plan ≡ fill writes
planned true plan writes h = h
planned false plan writes h = cc

-- A plan that writes anything is for a page of the credential's own host, over HTTPS; it writes at
-- least one value; and every value is the username, into a username or email field, or the password,
-- into a password field.
pub plan_fill-fill :
    (rt : Runtime) (form : AnalyzedForm) (c : Credential) (page_origin : String)
    (writes : List Write)
    → plan_fill rt form c page_origin ≡ fill writes
    → IsSecure rt (or_else "" c.url) page_origin
      × (writes ≢ [])
      × All (IsIntended form.fields c) writes
unfolding plan_fill
plan_fill-fill rt form c page_origin writes h =
    let (safely, same, some_write) =
      plan_safe-fill form c _ writes (planned (present c.url) _ writes h) in
    (
      (is_autofill_safe_lem rt (or_else "" c.url) page_origin).0 safely,
      some_write,
      subst (All (IsIntended form.fields c)) same
          (All-IsIntended form.fields form.fields c (λ f hf. hf)),
    )
