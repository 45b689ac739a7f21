-- ===== src/Desktop/Biometric/Tests.antt =====
-- A key that is enrolled, asked for, and refused.
use vault_keep.Base.{none, some, true, false, [], ◌∷◌, throw, ok, ◌≡◌, refl}
use vault_keep.Desktop.Biometric.{SecureEnclave, Runtime, enroll, recover_key, is_enrolled}

abbrev toy : Runtime
toy = record {
  to_base64 = λ bytes. "key";
  from_base64 = λ text. 1 ∷ [];
  stringify = λ w. "wrapped";
  parse = λ text. ok (record { key_b64 = "key"; salt_b64 = "salt"; user_id = none });
}

abbrev laptop : SecureEnclave
laptop = record {
  is_available = true;
  prompt_user = true;
  encrypt = λ text. text;
  decrypt = λ text. ok text;
}

no_keystore :
    (enroll toy (record laptop { is_available = false }) none (1 ∷ []) "salt" none).1
    ≡ throw "biometric keystore unavailable on this device"
unfolding enroll
no_keystore = refl

-- A wrapped key of the wrong length is wiped.
wiped : recover_key toy laptop (some "wrapped") ≡ (none, none)
unfolding recover_key
wiped = refl

enrolled : is_enrolled toy laptop (some "wrapped") ≡ true
unfolding is_enrolled
enrolled = refl
