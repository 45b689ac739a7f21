-- ===== src/Extension/Session/Tests.antt =====
-- A session of one credential.
use vault_keep.Base.{none, some, [], ◌∷◌, ◌≡◌, arith}
use vault_keep.Extension.Fill.{Credential}
use vault_keep.Extension.Session.{
  default_auto_lock_ms, activate, credentials, touch, handle_all, activating, reading, touching,
  asking_status,
}
use vault_keep.Extension.Session.Idle.{auto_lock, activate-touch-credentials}

abbrev mail : Credential
mail = record {
  id = "1";
  title = "Mail";
  username = some "ann";
  password = some "pw";
  url = some "https://mail.example";
}

auto_lock_example :
    credentials default_auto_lock_ms 400000 (
      handle_all default_auto_lock_ms none (
        (0, activating (mail ∷ []))
        ∷ (50, touching)
        ∷ (200000, reading)
        ∷ (300010, asking_status)
        ∷ []))
    ≡ (none, none)
auto_lock_example =
    auto_lock default_auto_lock_ms 50 400000
      ((0, activating (mail ∷ []))
        ∷ (50, touching)
        ∷ (200000, reading)
        ∷ (300010, asking_status)
        ∷ [])
      (omega arith, (omega arith, (tt, (tt, tt)))) (omega arith)

touched_in_time :
    (credentials 100 190 (touch 100 90 (activate 100 (mail ∷ []) 0 none))).0 ≡ some (mail ∷ [])
touched_in_time =
    activate-touch-credentials 100 (mail ∷ []) none 0 90 190 (omega arith) (omega arith)
