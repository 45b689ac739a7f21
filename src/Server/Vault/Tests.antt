-- ===== src/Server/Vault/Tests.antt =====
-- Runs of the sync engine, and its theorems at concrete stores.
use vault_keep.Base.{
  Option, none, some, ◌≡◌, ◌≢◌, refl, String, List, [], ◌∷◌, arith, eq_iff, inr, str_eq,
  if◌then◌else◌, ◌&&◌, ap, sym, joined,
}
use vault_keep.Base.Int.{ℤ, pos}
use vault_keep.Base.Dict
use vault_keep.Base.Keyed.{upsert}
use vault_keep.Server.Conflict.{successor}
use vault_keep.Server.Vault.{
  StoredItem, PushRequest, accepted, conflicting, version_of, new_item, push, Request, pulling,
  pushing, deleting, serve_all,
}
use vault_keep.Server.Vault.Stores
use vault_keep.Server.Vault.Stores.{in_memory, file, in_memory-IsRepository, file-IsRepository}
use vault_keep.Server.Vault.Push.{push_lem, push-stale_conflicts, IsCurrent, reported, written}
use vault_keep.Server.Vault.History.{serve_all-Succeeds, serve_all-others, Succeeds}
use vault_keep.Server.Vault.Agreement.{serve_all-agree, keyed}
use vault_keep.Server.Vault.Race.{overlapping, overlapping-lost_update}

-- dates written as a number of digits
abbrev digits : String → Option ℤ
digits s = some (pos 7)

abbrev item_3 : StoredItem
item_3 = record {
  id = "mail";
  user_id = "ann";
  ciphertext = "blob";
  version = 3;
  updated_at = "2026-01-01T00:00:00.000Z";
}

abbrev rows : List StoredItem
rows = item_3 ∷ []

abbrev edit : String → PushRequest
edit blob = record { id = "mail"; ciphertext = blob; base_version = some 3 }

first_edit :
    push (file digits) rows "ann" (edit "a") "t1"
    ≡ (new_item "ann" (edit "a") 4 "t1" ∷ [], accepted 4)
unfolding push Stores.file_get Stores.file_put upsert
first_edit = refl

kept_edit :
    push (in_memory digits) (keyed rows) "ann" (edit "a") "t1"
    ≡ (keyed (new_item "ann" (edit "a") 4 "t1" ∷ []), accepted 4)
unfolding push Stores.mem_get Stores.mem_put Dict.get Dict.put joined
kept_edit = refl

created :
    push
      (file digits)
      rows
      "bob"
      (record { id = "mail"; ciphertext = "b"; base_version = none })
      "t1"
    ≡ (
      item_3
          ∷ record {
            id = "mail";
            user_id = "bob";
            ciphertext = "b";
            version = 1;
            updated_at = "t1";
          }
          ∷ [],
      accepted 1,
    )
unfolding push Stores.file_get Stores.file_put upsert
created = refl

push_lem_example :
    (IsCurrent (Stores.file_get rows "ann" "mail") (edit "a")
      → ((push (file digits) rows "ann" (edit "a") "t1").1
          ≡ accepted (successor (version_of (Stores.file_get rows "ann" "mail"))))
        × ((u i : String)
            → Unit {0}
            → Stores.file_get (push (file digits) rows "ann" (edit "a") "t1").0 u i ≡ (
                if str_eq "ann" u && str_eq "mail" i
                then some (written (Stores.file_get rows "ann" "mail") "ann" (edit "a") "t1")
                else Stores.file_get rows u i)))
    × (¬ IsCurrent (Stores.file_get rows "ann" "mail") (edit "a")
        → push (file digits) rows "ann" (edit "a") "t1" ≡ (
          rows,
          conflicting
              (reported (Stores.file_get rows "ann" "mail"))
              (Stores.file_get rows "ann" "mail"),
        ))
push_lem_example = push_lem (file digits) (file-IsRepository digits) rows "ann" tt (edit "a") "t1"

push-stale_conflicts_example :
    push (file digits) (push (file digits) rows "ann" (edit "a") "t1").0 "ann" (edit "b") "t2" ≡ (
      (push (file digits) rows "ann" (edit "a") "t1").0,
      conflicting 4 (some (new_item "ann" (edit "a") 4 "t1")),
    )
push-stale_conflicts_example =
    push-stale_conflicts (file digits) (file-IsRepository digits) rows "ann" tt (edit "a")
      (edit "b") "t1" "t2" refl refl (ap (λ p. p.1) first_edit)

abbrev script : List Request
script =
    pushing "ann" (edit "a") "t1"
    ∷ deleting "ann" "bank"
    ∷ pulling "ann" (some "t0")
    ∷ pushing "ann" (edit "b") "t2"
    ∷ []

mail_found : Stores.file_get rows "ann" "mail" ≡ some item_3
unfolding Stores.file_get
mail_found = refl

bank_ne_mail : ◌≢◌ {A = String} "bank" "mail"
bank_ne_mail = ground (arith, eq_iff "bank" "mail")

serve_all-Succeeds_example :
    (y : StoredItem) × (Stores.file_get (serve_all (file digits) rows script).0 "ann" "mail"
      ≡ some y)
    × Succeeds item_3 y
serve_all-Succeeds_example =
    serve_all-Succeeds (file digits) (file-IsRepository digits) rows "ann" "mail" script item_3 tt
      ((tt, tt), ((tt, inr bank_ne_mail), ((tt, tt), ((tt, tt), tt)))) mail_found

ann_ne_bob : ◌≢◌ {A = String} "ann" "bob"
ann_ne_bob = ground (arith, eq_iff "ann" "bob")

serve_all-others_example :
    Stores.file_get (serve_all (file digits) rows script).0 "bob" "mail"
    ≡ Stores.file_get rows "bob" "mail"
serve_all-others_example =
    serve_all-others (file digits) (file-IsRepository digits) rows "bob" "mail" script tt
      ((tt, ann_ne_bob), ((tt, ann_ne_bob), ((tt, ann_ne_bob), ((tt, ann_ne_bob), tt))))

serve_all-agree_example :
    serve_all (in_memory digits) (keyed rows) script
    ≡ (keyed (serve_all (file digits) rows script).0, (serve_all (file digits) rows script).1)
serve_all-agree_example = serve_all-agree digits rows script (omega arith) (omega arith)

overlapping-lost_update_example :
    ((overlapping (file digits) rows "ann" (edit "a") (edit "b") "t1" "t2").1
      ≡ accepted (successor (version_of (Stores.file_get rows "ann" "mail"))))
    × ((overlapping (file digits) rows "ann" (edit "a") (edit "b") "t1" "t2").2
        ≡ accepted (successor (version_of (Stores.file_get rows "ann" "mail"))))
    × (Stores.file_get
          (overlapping (file digits) rows "ann" (edit "a") (edit "b") "t1" "t2").0
          "ann"
          "mail"
        ≡ some (
            new_item "ann"
              (edit "b")
              (successor (version_of (Stores.file_get rows "ann" "mail")))
              "t2"))
overlapping-lost_update_example =
    overlapping-lost_update (file digits) (file-IsRepository digits) rows "ann" tt (edit "a")
      (edit "b") "t1" "t2" refl (ap version_of (sym mail_found)) refl
