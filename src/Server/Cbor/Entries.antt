-- ===== src/Server/Cbor/Entries.antt =====
-- The entries of a map in a value that the codec handles, and pieces of what it writes.
use vault_keep.Base.{
  ℕ, ◌≤◌, Bool, true, false, if◌then◌else◌, List, ◌++◌, ◌≡◌, ap, sym, refl, arith, ltb, Bool-cases,
  inl, inr, Thrown, ok, throw, ok_inj,
}
use vault_keep.Base.Int.{ℤ, pos, negsuc}
use vault_keep.Server.Cbor.{
  CborKey, CborValue, CborEntries, no_entries, entry, set_entry, same_cbor_key, write_both,
}

abbrev pub is_small : ℤ → ℕ
is_small (pos n) = n
is_small (negsuc n) = n

-- The entries with one more at the end, and one list of them after another.
abbrev pub push_entry : CborEntries → CborKey → CborValue → CborEntries
push_entry no_entries k v = entry k v no_entries
push_entry (entry j w es) k v = entry j w (push_entry es k v)

abbrev pub append_entries : CborEntries → CborEntries → CborEntries
append_entries no_entries es = es
append_entries (entry j w ds) es = entry j w (append_entries ds es)

abbrev pub has_key : CborKey → CborEntries → Bool
has_key k no_entries = false
has_key k (entry j w es) = if same_cbor_key j k then true else has_key k es

-- Each key is not among those before it.
abbrev pub Distinct : CborEntries → CborEntries → Type 0
Distinct before no_entries = Unit
Distinct before (entry k v es) = (has_key k before ≡ false) × Distinct (push_entry before k v) es

pub append-push_entry :
    (ds : CborEntries) (k : CborKey) (v : CborValue) (es : CborEntries)
    → append_entries (push_entry ds k v) es ≡ append_entries ds (entry k v es)
append-push_entry no_entries k v es = refl
append-push_entry (entry j w ds) k v es = ap (entry j w) (append-push_entry ds k v es)

pub append_nil : (ds : CborEntries) → append_entries ds no_entries ≡ ds
append_nil no_entries = refl
append_nil (entry j w ds) = ap (entry j w) (append_nil ds)

pub true-ne-false : true ≡ false → ⊥
true-ne-false e = cc

pub set_entry-new :
    (k : CborKey) (v : CborValue) (es : CborEntries)
    → has_key k es ≡ false
    → set_entry k v es ≡ push_entry es k v
unfolding set_entry
set_entry-new k v no_entries h = refl
set_entry-new k v (entry j w es) h = elim (Bool-cases (same_cbor_key j k)) [
  | inl e ↦ absurd (true-ne-false (rw e at h))
  | inr e ↦ rw e (ap (entry j w) (set_entry-new k v es (rw e at h)))
]

pub write_both-ok :
    (a b : Thrown (List ℕ)) {zs : List ℕ}
    → write_both a b ≡ ok zs
    → (xs : List ℕ) × (ys : List ℕ) × (a ≡ ok xs) × (b ≡ ok ys) × (zs ≡ xs ++ ys)
write_both-ok (ok xs) (ok ys) h = (xs, ys, refl, refl, sym (ok_inj h))
write_both-ok (ok xs) (throw e) h = cc
write_both-ok (throw e) b h = cc

pub not_past : (l x : ℕ) → x ≤ l → ltb l x ≡ false
not_past l x h = ground arith
