-- ===== src/Server/Vault/Agreement.antt =====
-- The in-memory store and the file store give the same replies.
use vault_keep.Base.{
  same_key, Option, ◌&&◌, ◌≡◌, inl, inr, String, str_eq, arith, Bool-cases, refl, ap, List, [], ◌∷◌,
  All, map, joined, joined_eq, NoColon, All-filter, filter,
}
use vault_keep.Base.Int.{ℤ}
use vault_keep.Base.Dict
use vault_keep.Base.Dict.{Dict}
use vault_keep.Base.Keyed.{pair_eq, upsert-cons, upsert-nil}
use vault_keep.Server.Vault.{
  StoredItem, PushRequest, PushResponse, accepted, version_of, push, delete, pull, Request, pulling,
  pushing, deleting, requester, items, pushed, deleted, serve, serve_all, finish_push, listed,
}
use vault_keep.Server.Conflict.{successor}
use vault_keep.Server.Vault.Push.{IsCurrent-dec, written, finish_push-current, finish_push-stale}
use vault_keep.Server.Vault.Stores.{
  in_memory, file, mem_get, mem_put, mem_remove, mem_list, file_get, file_put, file_remove,
  file_list,
}

-- the entries of the `Map` for the rows of the array
abbrev pub keyed : List StoredItem → Dict StoredItem
keyed = map (λ i. (joined i.user_id i.id, i))

abbrev pub PlainUsers : List StoredItem → Type 0
PlainUsers = All (λ i. NoColon i.user_id)

values-keyed : (f : List StoredItem) → Dict.values (keyed f) ≡ f
values-keyed [] = refl
values-keyed (x ∷ f) = ap (◌∷◌ x) (values-keyed f)

get-keyed :
    (f : List StoredItem) (u i : String)
    → PlainUsers f
    → NoColon u
    → mem_get (keyed f) u i ≡ file_get f u i
unfolding mem_get file_get Dict.get
get-keyed [] u i h hu = refl
get-keyed (x ∷ f) u i (hx, h) hu =
    ground (arith, joined_eq x.user_id u x.id i hx hu, get-keyed f u i h hu)

put-keyed :
    (f : List StoredItem) (x : StoredItem)
    → PlainUsers f
    → NoColon x.user_id
    → mem_put (keyed f) x ≡ keyed (file_put f x)
unfolding mem_put file_put Dict.put
put-keyed [] x h hx = rw upsert-nil
put-keyed (y ∷ f) x (hy, h) hx =
    rw (upsert-cons, joined_eq y.user_id x.user_id y.id x.id hy hx)
      (elim (Bool-cases (str_eq y.user_id x.user_id && str_eq y.id x.id)) [
        | inl same ↦ rw same (let (p, q) = same_key y.user_id x.user_id y.id x.id same in rw (p, q))
        | inr other ↦ rw other (ap (◌∷◌ (joined y.user_id y.id, y)) (put-keyed f x h hx))
      ])

remove-keyed :
    (f : List StoredItem) (u i : String)
    → PlainUsers f
    → NoColon u
    → mem_remove (keyed f) u i ≡ keyed (file_remove f u i)
unfolding mem_remove file_remove Dict.delete
remove-keyed [] u i h hu = refl
remove-keyed (x ∷ f) u i (hx, h) hu =
    rw (joined_eq x.user_id u x.id i hx hu)
      (elim (Bool-cases (str_eq x.user_id u && str_eq x.id i)) [
        | inl same ↦ rw same (remove-keyed f u i h hu)
        | inr other ↦ rw other (ap (◌∷◌ (joined x.user_id x.id, x)) (remove-keyed f u i h hu))
      ])

put-PlainUsers :
    (f : List StoredItem) (x : StoredItem)
    → PlainUsers f
    → NoColon x.user_id
    → PlainUsers (file_put f x)
unfolding file_put
put-PlainUsers [] x h hx = rw upsert-nil (hx, tt)
put-PlainUsers (y ∷ f) x (hy, h) hx =
    rw upsert-cons (elim (Bool-cases (str_eq y.user_id x.user_id && str_eq y.id x.id)) [
      | inl same ↦ rw same (hx, h)
      | inr other ↦ rw other (hy, put-PlainUsers f x h hx)
    ])

remove-PlainUsers :
    (f : List StoredItem) (u i : String) → PlainUsers f → PlainUsers (file_remove f u i)
unfolding file_remove
remove-PlainUsers f u i h = All-filter (λ i. NoColon i.user_id) _ f h

module _ (parse : String → Option ℤ) where
  finish-keyed :
      (existing : Option StoredItem) (f : List StoredItem) (user : String) (req : PushRequest)
      (now : String)
      → PlainUsers f
      → NoColon user
      → (finish_push (in_memory parse) existing (keyed f) user req now ≡ (
        keyed (finish_push (file parse) existing f user req now).0,
        (finish_push (file parse) existing f user req now).1,
      ))
        × PlainUsers (finish_push (file parse) existing f user req now).0
  finish-keyed existing f user req now h hu = elim (IsCurrent-dec existing req) [
    | yes c ↦
        rw
          (
            finish_push-current (in_memory parse) existing (keyed f) user req now c,
            finish_push-current (file parse) existing f user req now c,
          )
          (
            ap (λ (m : Dict StoredItem). (m, accepted (successor (version_of existing))))
                (put-keyed f (written existing user req now) h hu),
            put-PlainUsers f (written existing user req now) h hu,
          )
    | no c ↦
        rw
          (
            finish_push-stale (in_memory parse) existing (keyed f) user req now c,
            finish_push-stale (file parse) existing f user req now c,
          )
          (refl, h)
  ]

  serve-keyed :
      (f : List StoredItem) (c : Request)
      → PlainUsers f
      → NoColon (requester c)
      → (serve (in_memory parse) (keyed f) c
          ≡ (keyed (serve (file parse) f c).0, (serve (file parse) f c).1))
        × PlainUsers (serve (file parse) f c).0
  unfolding serve push pull delete mem_list file_list
  serve-keyed f (pulling user since) h hu = (
    ap (λ (l : List StoredItem). (keyed f, items (filter (listed parse user since) l)))
        (values-keyed f),
    h,
  )
  serve-keyed f (pushing user req now) h hu = rw (get-keyed f user req.id h hu) (
      let (step, still) = finish-keyed (file_get f user req.id) f user req now h hu in
      (ap (λ (p : Dict StoredItem × PushResponse). (p.0, pushed p.1)) step, still))
  serve-keyed f (deleting user id) h hu = (
    ap (λ (m : Dict StoredItem). (m, deleted)) (remove-keyed f user id h hu),
    remove-PlainUsers f user id h,
  )

  -- Whatever the requests of users whose ids have no colon, the two stores give the same replies,
  -- and end with the same items in the same order.
  pub serve_all-agree :
      (f : List StoredItem) (cs : List Request)
      → PlainUsers f
      → All (λ c. NoColon (requester c)) cs
      → serve_all (in_memory parse) (keyed f) cs
        ≡ (keyed (serve_all (file parse) f cs).0, (serve_all (file parse) f cs).1)
  unfolding serve_all
  serve_all-agree f [] h hc = refl
  serve_all-agree f (c ∷ cs) h (hu, hc) =
      let (step, still) = serve-keyed f c h hu in
      let ih = serve_all-agree (serve (file parse) f c).0 cs still hc in rw step (rw ih)
