-- ===== src/Server/Recovery/Tests.antt =====
-- Runs of the recovery service, and its theorems at concrete stores.
use vault_keep.Base.{
  ℕ, zero, suc, ◌+◌, ◌≤◌, none, some, ◌≡◌, ◌⊎◌, refl, String, [], ◌∷◌, str_eq, arith, ok,
  if◌then◌else◌, ap, text_length, true,
}
use vault_keep.Base.Int.{ltb_ℤ, pos}
use vault_keep.Base.Keyed.{upsert, replace_row}
use vault_keep.Server.Recovery.{
  Dates, Runtime, Contact, ContactInput, adding, requesting, serve, recovery_key_used,
  request_access, collect, add_contact, setup, begin, sealed, refused, waiting, enrolled, pending,
  denied, deny, collecting, handed,
}
use vault_keep.Server.Recovery.Stores
use vault_keep.Server.Recovery.Stores.{file, file-IsRepository, FileRows}
use vault_keep.Server.Recovery.Calls.{Moves}
use vault_keep.Server.Recovery.Steps.{serve-Moves, HandsOver}
use vault_keep.Server.Recovery.Wait.{
  Runs, start, next, Asked, History, collect-after_wait, denied_forever,
}
use vault_keep.Server.Recovery.Key.{IsArgon2, begin-setup}

-- a date as that many strokes
tally : ℕ → String
tally zero = ""
tally (suc n) = String.◌∷◌ "|" (tally n)

length-tally : (n : ℕ) → text_length (tally n) ≡ n
unfolding tally
length-tally zero = refl
length-tally (suc n) = ap suc (length-tally n)

abbrev strokes : Dates
strokes = record {
  iso = tally;
  parse = λ s. some (pos (text_length s));
  parse-iso = λ t h. ap (λ n. some (pos n)) (length-tally t);
}

abbrev rt : Runtime
rt = record {
  dates = strokes;
  verify = λ key message signature. ok (str_eq key signature);
  hash_secret = λ secret salt. ok secret;
  argon2_verify = λ guess hash. ok (str_eq guess hash);
  wait_ms = 10;
}

rt-IsArgon2 : IsArgon2 rt
rt-IsArgon2 secret salt hash guess e = cc

abbrev bob : ContactInput
bob = record {
  user_id = "ann";
  contact_email = "bob@x.org";
  contact_signing_public_key = "k";
  ephemeral_public_key = "eph";
  wrapped_key = "blob";
}

abbrev nothing : FileRows
nothing = record { recoveries = []; contacts = [] }

abbrev contact_in : Contact
contact_in = record {
  id = "c1";
  user_id = "ann";
  contact_email = "bob@x.org";
  contact_signing_public_key = "k";
  ephemeral_public_key = "eph";
  wrapped_key = "blob";
  state = enrolled;
  unlock_at = none;
  created_at = "";
}

abbrev one_contact : FileRows
one_contact = record { recoveries = []; contacts = contact_in ∷ [] }

abbrev asked : FileRows
asked = (serve file rt one_contact (requesting "c1" "k") 5).0

abbrev contact_asked : Contact
contact_asked = record contact_in { state = pending; unlock_at = some "|||||||||||||||" }

asked_contact : Stores.file_get_contact asked "c1" ≡ some contact_asked
unfolding serve request_access Stores.file_get_contact Stores.file_update_contact replace_row tally
asked_contact = refl

-- one millisecond early, and on time
collect_early : (collect file rt asked "c1" "k" 14).1 ≡ waiting (some "|||||||||||||||")
unfolding serve request_access collect Stores.file_get_contact Stores.file_update_contact
    replace_row tally ltb_ℤ
collect_early = refl

collect_on_time : (collect file rt asked "c1" "k" 15).1 ≡ sealed "eph" "blob"
unfolding serve request_access collect Stores.file_get_contact Stores.file_update_contact
    replace_row tally ltb_ℤ
collect_on_time = refl

no_contact : (i : String) → Stores.file_get_contact nothing i ≡ none
unfolding Stores.file_get_contact
no_contact i = refl

contact_found : Stores.file_get_contact one_contact "c1" ≡ some contact_in
unfolding Stores.file_get_contact
contact_found = refl

serve-Moves_example :
    ((Stores.file_get_contact asked "c1" ≡ some contact_in)
      ⊎ ((d : Contact) × (Stores.file_get_contact asked "c1" ≡ some d)
          × Moves file rt
              (requesting "c1" "k")
              5
              contact_in
              d
              (serve file rt one_contact (requesting "c1" "k") 5).1))
    × HandsOver file file-IsRepository rt one_contact
        (requesting "c1" "k")
        5
        (handed file rt one_contact (requesting "c1" "k") 5)
serve-Moves_example =
    serve-Moves file file-IsRepository rt one_contact (requesting "c1" "k") 5 "c1" contact_in tt
      contact_found

abbrev added : FileRows
added = (serve file rt nothing (adding bob "c1") 0).0

abbrev history : History
history = (requesting "c1" "k", 5) ∷ (adding bob "c1", 0) ∷ []

run : Runs file file-IsRepository rt nothing (serve file rt added (requesting "c1" "k") 5).0 history
run =
    next (next start (adding bob "c1") 0 (omega arith) (omega arith) (no_contact "c1"))
      (requesting "c1" "k") 5 (omega arith) (omega arith) tt

run_found :
    Stores.file_get_contact (serve file rt added (requesting "c1" "k") 5).0 "c1"
    ≡ some contact_asked
unfolding serve add_contact request_access Stores.file_get_contact Stores.file_create_contact
    Stores.file_update_contact replace_row tally
run_found = refl

run_collects :
    (collect file rt (serve file rt added (requesting "c1" "k") 5).0 "c1" "k" 15).1
    ≡ sealed "eph" "blob"
unfolding serve add_contact request_access collect Stores.file_get_contact
    Stores.file_create_contact Stores.file_update_contact replace_row tally ltb_ℤ
run_collects = refl

collect-after_wait_example :
    (asked_at : ℕ) × Asked file file-IsRepository rt "c1" "k" asked_at history
    × (asked_at + 10 ≤ 15)
collect-after_wait_example =
    collect-after_wait file file-IsRepository rt "c1" "k" 15 contact_asked no_contact run
      (omega arith) run_found run_collects

on_time_hands_over : handed file rt asked (collecting "c1" "k") 15 ≡ some ("eph", "blob")
unfolding handed serve request_access collect Stores.file_get_contact Stores.file_update_contact
    replace_row tally ltb_ℤ
on_time_hands_over = refl

abbrev denied_rows : FileRows
denied_rows = (deny file rt asked "ann" "c1").0

denial_granted : (deny file rt asked "ann" "c1").1 ≡ true
unfolding serve request_access deny Stores.file_get_contact Stores.file_update_contact replace_row
    tally
denial_granted = refl

denied_run :
    Runs file file-IsRepository rt denied_rows
      (serve file rt denied_rows (requesting "c1" "k") 5).0
      ((requesting "c1" "k", 5) ∷ [])
denied_run = next start (requesting "c1" "k") 5 (omega arith) (omega arith) tt

denied_forever_example :
    (Stores.file_get_contact (serve file rt denied_rows (requesting "c1" "k") 5).0 "c1"
      ≡ some (record contact_asked { state = denied; unlock_at = none }))
    × ((request_access file rt (serve file rt denied_rows (requesting "c1" "k") 5).0 "c1" "k" 9).1
        ≡ none)
    × ((collect file rt (serve file rt denied_rows (requesting "c1" "k") 5).0 "c1" "k" 9).1
        ≡ refused)
denied_forever_example =
    denied_forever file file-IsRepository rt "ann" "c1" "k" 9 contact_asked asked_contact
      denial_granted denied_run

abbrev with_key : FileRows
with_key = record {
  recoveries =
      record {
        user_id = "ann";
        verifier_hash = "0123456789abcdef";
        wrapped_key = "wrapped";
        created_at = "|";
      }
      ∷ [];
  contacts = [];
}

setup_runs : setup file rt nothing 1 "salt" "ann" "0123456789abcdef" "wrapped" ≡ ok with_key
unfolding setup Stores.file_upsert_recovery upsert tally
setup_runs = refl

begin-setup_example : begin file rt with_key "ann" "guess" ≡ (
    if str_eq "ann" "ann"
    then if str_eq "guess" "0123456789abcdef"
      then (some "wrapped", recovery_key_used "ann" ∷ [])
      else (none, [])
    else begin file rt nothing "ann" "guess")
begin-setup_example =
    begin-setup file file-IsRepository rt rt-IsArgon2 nothing with_key 1 "salt" "ann"
      "0123456789abcdef" "wrapped" "ann" "guess" setup_runs
