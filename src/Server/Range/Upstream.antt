-- ===== src/Server/Range/Upstream.antt =====
-- An upstream that fails: what is served then, and for how long.
use vault_keep.Base.{
  ℕ, str_eq, subst, Bool-cases, inl, inr, or_else, Option, none, some, true, false, not,
  if◌then◌else◌, List, [], ◌∷◌, ◌++◌, map, String, ok, throw, ◌≡◌, ◌∙◌, ap, sym, refl, eq_iff,
  split_on,
}
use vault_keep.Base.Dict.{Dict, get, put, get-put}
use vault_keep.Desktop.Health.{split_lines, first_piece}
use vault_keep.Server.Range.{
  Runtime, RangeUpstream, BreachRangeService, is_valid_prefix, sort, join_lines, local_lines,
  upstream_body, merged, is_kept, is_new_suffix, or_empty, range_with, range, range_all,
  suffix_line,
}
use mathlib.Core.List.{append-nil}

module _ (rt : Runtime) (trim_empty : rt.trim "" ≡ "") (upper_empty : rt.to_upper "" ≡ "") where
  empty-is_kept : (seen : List String) → is_kept rt seen "" ≡ false
  unfolding split_on
  empty-is_kept seen =
      ap (λ t. is_new_suffix rt seen (rt.to_upper t)) trim_empty
      ∙ ap (is_new_suffix rt seen) upper_empty

  -- An empty answer adds no line.
  empty-merged : (local : List String) → merged rt local "" ≡ local
  unfolding split_lines
  empty-merged local =
      ap (λ b. local ++ map rt.trim (if b then "" ∷ [] else []))
        (empty-is_kept (map (λ l. first_piece (split_on b':' l)) local))
      ∙ append-nil local

  -- The body of the lines that are served.
  abbrev body : List String → String
  body lines = join_lines (sort lines)

  range-valid :
      (upstream : Option RangeUpstream) (s : BreachRangeService) (prefix : String)
      → is_valid_prefix prefix ≡ true
      → range rt upstream s prefix
        ≡ ((range_with rt upstream s prefix).0, ok (body (range_with rt upstream s prefix).1))
  unfolding range
  range-valid upstream s prefix h =
      ap
        (λ b.
          if not b
          then (s, throw "invalid prefix")
          else ((range_with rt upstream s prefix).0, ok (body (range_with rt upstream s prefix).1)))
        h

  -- What is served for a prefix whose cached answer is empty.
  cached_empty :
      (upstream : RangeUpstream) (s : BreachRangeService) (prefix : String)
      → is_valid_prefix prefix ≡ true
      → get prefix s.upstream_cache ≡ some ""
      → (range rt (some upstream) s prefix).1 ≡ ok (body (local_lines rt s prefix))
  cached_empty upstream s prefix valid cached =
      ap (λ r. r.1) (range-valid (some upstream) s prefix valid)
      ∙ ap
          (λ o.
            ok
              (body (merged rt (local_lines rt s prefix) (upstream_body rt upstream s prefix o).1)))
          cached
      ∙ ap (λ ls. ok (body ls)) (empty-merged (local_lines rt s prefix))

  -- The cached answer is empty, and the local hashes are these.
  abbrev IsCached : String → Dict (List (String × ℕ)) → BreachRangeService → Type 0
  IsCached prefix buckets s = (get prefix s.upstream_cache ≡ some "") × (s.buckets ≡ buckets)

  none-ne-some : {x : String} → none ≡ some x → ⊥
  none-ne-some h = cc

  get-put_kept :
      (prefix q up : String) (cache : Dict String)
      → get prefix cache ≡ some ""
      → get q cache ≡ none
      → get prefix (put q up cache) ≡ some ""
  get-put_kept prefix q up cache h missing = elim (Bool-cases (str_eq q prefix)) [
    | inl e ↦
        absurd (none-ne-some (sym missing ∙ ap (λ k. get k cache) ((eq_iff q prefix).0 e) ∙ h))
    | inr e ↦ get-put q prefix up cache ∙ ap (λ b. if b then some up else get prefix cache) e ∙ h
  ]

  upstream_body-IsCached :
      (prefix : String) (buckets : Dict (List (String × ℕ))) (upstream : RangeUpstream)
      (s : BreachRangeService) (q : String) (found : Option String)
      → get q s.upstream_cache ≡ found
      → IsCached prefix buckets s
      → IsCached prefix buckets (upstream_body rt upstream s q found).0
  upstream_body-IsCached prefix buckets upstream s q (some up) at h = h
  upstream_body-IsCached prefix buckets upstream s q none at (cached, same) =
      (get-put_kept prefix q (or_empty rt (upstream q)) s.upstream_cache cached at, same)

  range-IsCached :
      (prefix : String) (buckets : Dict (List (String × ℕ))) (upstream : RangeUpstream)
      (s : BreachRangeService) (q : String)
      → IsCached prefix buckets s
      → IsCached prefix buckets (range rt (some upstream) s q).0
  unfolding range
  range-IsCached prefix buckets upstream s q h = elim (Bool-cases (is_valid_prefix q)) [
    | inl e ↦
        rw e (upstream_body-IsCached prefix buckets upstream s q (get q s.upstream_cache) refl h)
    | inr e ↦ rw e h
  ]

  range_all-IsCached :
      (prefix : String) (buckets : Dict (List (String × ℕ))) (calls : List (RangeUpstream × String))
      (s : BreachRangeService)
      → IsCached prefix buckets s
      → IsCached prefix buckets (range_all rt s calls)
  unfolding range_all
  range_all-IsCached prefix buckets [] s h = h
  range_all-IsCached prefix buckets ((upstream, q) ∷ rest) s h =
      range_all-IsCached prefix buckets rest (range rt (some upstream) s q).0
        (range-IsCached prefix buckets upstream s q h)

  -- Where trimming or upper-casing the empty text leaves it empty: when the upstream fails at the first
  -- request for a valid prefix, the answer is what a service without an upstream gives. And so is every
  -- later answer for this prefix, after any number of requests for it and for others, whatever the
  -- upstream answers to each: the failure is kept as an empty answer.
  pub range-outage :
      (upstream later : RangeUpstream) (s : BreachRangeService) (prefix e : String)
      (calls : List (RangeUpstream × String))
      → is_valid_prefix prefix ≡ true
      → get prefix s.upstream_cache ≡ none
      → upstream prefix ≡ throw e
      → ((range rt (some upstream) s prefix).1 ≡ (range rt none s prefix).1)
        × ((range rt
              (some later)
              (range_all rt (range rt (some upstream) s prefix).0 calls)
              prefix).1
            ≡ (range rt none s prefix).1)
  range-outage upstream later s prefix e calls valid fresh fails =
      let alone : (range rt none s prefix).1 ≡ ok (body (local_lines rt s prefix)) =
        ap (λ r. r.1) (range-valid none s prefix valid) in
      let cached : BreachRangeService = record s {
        upstream_cache = put prefix "" s.upstream_cache;
      } in
      let asked : upstream_body rt upstream s prefix (get prefix s.upstream_cache) ≡ (cached, "") =
        ap (upstream_body rt upstream s prefix) fresh
        ∙ ap
            (λ r. (
              record s { upstream_cache = put prefix (or_empty rt r) s.upstream_cache },
              or_empty rt r,
            ))
            fails in
      let first = range-valid (some upstream) s prefix valid in
      let state : (range rt (some upstream) s prefix).0 ≡ cached =
        ap (λ r. r.0) first ∙ ap (λ p. p.0) asked in
      let found =
        get-put prefix prefix "" s.upstream_cache
        ∙ ap (λ b. if b then some "" else get prefix s.upstream_cache)
            ((eq_iff prefix prefix).1 refl) in
      let (kept, same) =
        range_all-IsCached prefix s.buckets calls (range rt (some upstream) s prefix).0
          (subst (IsCached prefix s.buckets) (sym state) (found, refl)) in
      (
        ap (λ r. r.1) first
            ∙ ap (λ p. ok (body (merged rt (local_lines rt s prefix) p.1))) asked
            ∙ ap (λ ls. ok (body ls)) (empty-merged (local_lines rt s prefix))
            ∙ sym alone,
        cached_empty later (range_all rt (range rt (some upstream) s prefix).0 calls) prefix valid
              kept
            ∙ ap
                (λ (b : Dict (List (String × ℕ))).
                  ok (body (map (suffix_line rt) (or_else [] (get prefix b)))))
                same
            ∙ sym alone,
      )
