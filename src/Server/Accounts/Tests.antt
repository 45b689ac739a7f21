-- ===== src/Server/Accounts/Tests.antt =====
-- Accounts under a toy hash, which is the verifier itself.
use vault_keep.Base.{
  none, some, false, if◌then◌else◌, List, [], ◌∷◌, String, ok, throw, ◌≡◌, ap, sym, refl, str_eq,
  ok_inj, split_on,
}
use vault_keep.Server.Accounts.{
  Runtime, AccountRecord, RegisterInput, register, reset_verifier, verify_login, is_email,
  find_by_email, find_by_id, create, update_auth_hash, update_row,
}
use vault_keep.Server.Accounts.Login.{
  IsArgon2, is_of, register-verify_login, reset_verifier-verify_login,
}

abbrev toy : Runtime
toy = record {
  to_lower = λ s. if str_eq s "Ann@x.org" then "ann@x.org" else s;
  base64_text = λ s. s;
  hash_verifier = λ verifier salt. ok verifier;
  argon2_verify = λ guess hash. str_eq guess hash;
}

toy-IsArgon2 : IsArgon2 toy
toy-IsArgon2 secret salt hash guess h = ap (str_eq guess) (sym (ok_inj h))

abbrev ann : RegisterInput
ann = record {
  email = "Ann@x.org";
  auth_verifier = "0123456789abcdef";
  kdf_salt = "s";
  kdf_memory_kib = none;
  kdf_iterations = none;
  kdf_parallel = none;
}

abbrev stored : String → List AccountRecord
stored hash =
    record {
      id = "u1";
      email = "Ann@x.org";
      kdf_salt = "s";
      kdf_memory_kib = 65536;
      kdf_iterations = 3;
      kdf_parallel = 4;
      auth_hash = hash;
      created_at = "t";
    }
    ∷ []

registered : register toy [] ann "u1" "salt" "t" ≡ ok ("u1", stored "0123456789abcdef")
unfolding register is_email split_on find_by_email create
registered = refl

again :
    register toy (stored "0123456789abcdef") ann "u2" "salt" "t" ≡ throw "email already registered"
unfolding register is_email split_on find_by_email create
again = refl

no_dot : is_email "ann@xorg" ≡ false
unfolding is_email split_on
no_dot = refl

was_reset :
    reset_verifier toy (stored "0123456789abcdef") "u1" "fedcba9876543210" "salt"
    ≡ ok (stored "fedcba9876543210")
unfolding reset_verifier update_auth_hash find_by_id update_row
was_reset = refl

register-verify_login_example :
    verify_login toy (stored "0123456789abcdef") "ann@x.org" "0123456789abcdef" ≡ (
      if str_eq (toy.to_lower "Ann@x.org") (toy.to_lower "ann@x.org")
      then if str_eq "0123456789abcdef" "0123456789abcdef" then some "u1" else none
      else verify_login toy [] "ann@x.org" "0123456789abcdef")
register-verify_login_example =
    register-verify_login toy toy-IsArgon2 [] (stored "0123456789abcdef") ann "u1" "u1" "salt" "t"
      registered "ann@x.org" "0123456789abcdef"

reset_verifier-verify_login_example :
    verify_login toy (stored "fedcba9876543210") "ann@x.org" "0123456789abcdef" ≡ (
      if is_of toy "u1" (find_by_email toy (stored "0123456789abcdef") "ann@x.org")
      then if str_eq "0123456789abcdef" "fedcba9876543210" then some "u1" else none
      else verify_login toy (stored "0123456789abcdef") "ann@x.org" "0123456789abcdef")
reset_verifier-verify_login_example =
    reset_verifier-verify_login toy toy-IsArgon2 (stored "0123456789abcdef")
      (stored "fedcba9876543210") "u1" "fedcba9876543210" "salt" (refl, tt) was_reset "ann@x.org"
      "0123456789abcdef"
