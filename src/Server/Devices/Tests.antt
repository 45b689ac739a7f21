-- ===== src/Server/Devices/Tests.antt =====
-- Runs of the device service, and its theorems at concrete stores.
use vault_keep.Base.{
  none, Bool, true, false, ◌≡◌, ◌↔◌, ◌⊎◌, refl, String, List, [], ◌∷◌, str_eq, Thrown, ok,
}
use vault_keep.Server.Devices.{
  DeviceRecord, EnrollInput, approved, refused, enroll, approve, is_approved, Request, enrolling,
  approving, serve, serve_all,
}
use vault_keep.Server.Devices.Stores
use vault_keep.Server.Devices.Stores.{file, file-IsRepository}
use vault_keep.Server.Devices.Trust.{
  Vouches, approve_lem, serve-Cause, Cause, serve_all-is_approved, HasOneTrusted,
}

-- A scheme in which one signature is good.
abbrev toy : String → String → String → Thrown Bool
toy key message signature = ok (str_eq signature "signed")

abbrev laptop : EnrollInput
laptop = record {
  user_id = "ann";
  name = "Mac";
  platform = "macos";
  public_key = "x";
  signing_public_key = "k";
}

abbrev run : List Request
run =
    enrolling laptop "d1" "t1"
    ∷ enrolling laptop "d2" "t2"
    ∷ approving "ann" "d1" "d2" "forged"
    ∷ []

abbrev two_devices : List DeviceRecord
two_devices = serve_all file toy [] (enrolling laptop "d1" "t1" ∷ enrolling laptop "d2" "t2" ∷ [])

first_is_trusted : is_approved file two_devices "ann" "d1" ≡ true
unfolding serve_all serve enroll is_approved Stores.file_create Stores.file_list Stores.file_get
first_is_trusted = refl

second_is_not : is_approved file two_devices "ann" "d2" ≡ false
unfolding serve_all serve enroll is_approved Stores.file_create Stores.file_list Stores.file_get
second_is_not = refl

signed_approval : (approve file toy two_devices "ann" "d1" "d2" "signed").1 ≡ ok approved
unfolding approve serve_all serve enroll Stores.file_create Stores.file_list Stores.file_get
    Stores.file_set_approved
signed_approval = refl

signed_is_trusted :
    is_approved file (serve file toy two_devices (approving "ann" "d1" "d2" "signed")) "ann" "d2"
    ≡ true
unfolding serve_all serve approve enroll is_approved Stores.file_create Stores.file_list
    Stores.file_get Stores.file_set_approved
signed_is_trusted = refl

untrusted_approver :
    (approve file toy two_devices "ann" "d2" "d1" "signed").1
    ≡ ok (refused "approver is not trusted")
unfolding approve serve_all serve enroll Stores.file_create Stores.file_list Stores.file_get
untrusted_approver = refl

approve_lem_example :
    (((approve file toy two_devices "ann" "d1" "d2" "signed").1 ≡ ok approved)
      ↔ Vouches file toy two_devices "ann" "d1" "d2" "signed")
    × (Vouches file toy two_devices "ann" "d1" "d2" "signed"
        → (approve file toy two_devices "ann" "d1" "d2" "signed").0
          ≡ Stores.file_set_approved two_devices "ann" "d2" true)
    × (¬ Vouches file toy two_devices "ann" "d1" "d2" "signed"
        → (approve file toy two_devices "ann" "d1" "d2" "signed").0 ≡ two_devices)
approve_lem_example = approve_lem file toy two_devices "ann" "d1" "d2" "signed"

serve-Cause_example :
    (is_approved file two_devices "ann" "d2" ≡ true)
    ⊎ Cause file toy two_devices "ann" "d2" (approving "ann" "d1" "d2" "signed")
serve-Cause_example =
    serve-Cause file file-IsRepository toy two_devices (approving "ann" "d1" "d2" "signed") "ann"
      "d2" tt tt tt signed_is_trusted

nothing_trusted : HasOneTrusted file file-IsRepository toy [] "ann"
unfolding is_approved Stores.file_get
nothing_trusted d e h k = cc

d1_found_free : Stores.file_get (serve file toy [] (enrolling laptop "d1" "t1")) "ann" "d2" ≡ none
unfolding serve enroll Stores.file_create Stores.file_list Stores.file_get
d1_found_free = refl

start_is_free : Stores.file_get [] "ann" "d1" ≡ none
unfolding Stores.file_get
start_is_free = refl

still_trusted : is_approved file (serve_all file toy [] run) "ann" "d1" ≡ true
unfolding serve_all serve enroll approve is_approved Stores.file_create Stores.file_list
    Stores.file_get Stores.file_set_approved
still_trusted = refl

serve_all-is_approved_example : ◌≡◌ {A = String} "d1" "d1"
serve_all-is_approved_example =
    serve_all-is_approved file file-IsRepository toy [] run "ann" "d1" "d1" tt
      (tt, start_is_free, (tt, d1_found_free, (tt, tt, tt))) (tt, (tt, ((λ key e. cc), tt)))
      nothing_trusted still_trusted still_trusted
