-- ===== src/Server/Assertions/Tests.antt =====
-- A device answers a challenge, once.
use vault_keep.Base.{
  Bool, true, false, ◌≡◌, ◌≢◌, refl, String, List, [], ◌∷◌, str_eq, eq_iff, Thrown, ok,
}
use vault_keep.Base.Dict.{get, put}
use vault_keep.Server.Devices.{DeviceRecord}
use vault_keep.Server.Devices.Stores.{file, file_get}
use vault_keep.Server.Assertions.{
  Challenges, create_challenge, verify_assertion, Call, challenging, asserting, serve_all,
}
use vault_keep.Server.Assertions.Once.{IsAnswered, verify_assertion-IsAnswered}

-- A scheme in which one signature is good.
abbrev toy : String → String → String → Thrown Bool
toy key message signature = ok (str_eq signature "signed")

abbrev laptops : List DeviceRecord
laptops =
    record {
      id = "d1";
      user_id = "ann";
      name = "Mac";
      platform = "macos";
      public_key = "x";
      signing_public_key = "k";
      approved = true;
      created_at = "now";
    }
    ∷ []

abbrev issued : Challenges
issued = create_challenge [] 10 "c1" "ann" "d1"

answered : (verify_assertion file toy laptops issued 120010 "ann" "d1" "c1" "signed").1 ≡ ok true
unfolding verify_assertion create_challenge get put file_get
answered = refl

answered_now : (verify_assertion file toy laptops issued 20 "ann" "d1" "c1" "signed").1 ≡ ok true
unfolding verify_assertion create_challenge get put file_get
answered_now = refl

too_late : (verify_assertion file toy laptops issued 120011 "ann" "d1" "c1" "signed").1 ≡ ok false
unfolding verify_assertion create_challenge get put file_get
too_late = refl

abbrev later_calls : List (Call (List DeviceRecord))
later_calls = asserting laptops 20 "ann" "d1" "c1" "signed" ∷ challenging 30 "c2" "ann" "d1" ∷ []

false-ne-true : false ≡ true → ⊥
false-ne-true h = cc

two-ne-one : ◌≢◌ {A = String} "c2" "c1"
two-ne-one e = false-ne-true ((eq_iff "c2" "c1").1 e)

verify_assertion-IsAnswered_example :
    IsAnswered file toy laptops issued 20 "ann" "d1" "c1" "signed"
    × ((verify_assertion file toy laptops
          (serve_all file toy
            (verify_assertion file toy laptops issued 20 "ann" "d1" "c1" "signed").0
            later_calls)
          40
          "ann"
          "d1"
          "c1"
          "signed").1
        ≢ ok true)
verify_assertion-IsAnswered_example =
    verify_assertion-IsAnswered file toy laptops issued 20 "ann" "d1" "c1" "signed" answered_now
      later_calls (tt, (two-ne-one, tt)) laptops 40 "signed"
