-- ===== src/Server/Mfa/Tests.antt =====
-- An enrollment under a toy HMAC, the low byte of the counter.
use vault_keep.Base.{
  none, true, List, [], ◌∷◌, String, ok, ◌≡◌, ◌↔◌, refl, arith, or_else, get_elem?,
}
use vault_keep.Server.Mfa.{
  Runtime, code_at, current_code, verify_totp, b32decode, generate_secret, truncated, padded,
  big_endian, groups, bits_of, read_bits, Event, starting, confirming, serve, serve_all, start,
  confirm, verify,
}
use vault_keep.Base.Dict
use vault_keep.Server.Mfa.Stores
use vault_keep.Server.Mfa.Stores.{in_memory, in_memory-IsRepository, file, file-IsRepository}
use vault_keep.Server.Mfa.Codes.{IsNear, verify_totp_lem}
use vault_keep.Server.Mfa.Enrollment.{WasShown, serve_all-verify, start-confirm-verify}

abbrev toy : Runtime
toy = record {
  hmac_sha1 = λ key buf. 0 ∷ 0 ∷ 0 ∷ or_else 0 (get_elem? buf 7) ∷ 0 ∷ [];
  to_upper = λ s. s;
}

spelled : generate_secret (72 ∷ 101 ∷ 108 ∷ 108 ∷ 111 ∷ []) ≡ "JBSWY3DP"
unfolding generate_secret groups bits_of read_bits
spelled = refl

decoded : b32decode toy "JBSWY3DP" ≡ 72 ∷ 101 ∷ 108 ∷ 108 ∷ 111 ∷ []
unfolding b32decode groups bits_of read_bits
decoded = refl

second_code : code_at toy "JBSWY3DP" 2 ≡ "000002"
unfolding code_at truncated padded big_endian b32decode groups bits_of read_bits
second_code = refl

verify_totp_lem_example :
    (verify_totp toy "JBSWY3DP" "000002" 60000 ≡ ok true) ↔ IsNear toy "JBSWY3DP" "000002" 60000
verify_totp_lem_example = verify_totp_lem toy "JBSWY3DP" "000002" 60000 (omega arith)

nobody : (u : String) → Stores.mem_get [] u ≡ none
unfolding Stores.mem_get
nobody u = Dict.get-nil u

abbrev run : List Event
run = starting "ann" (72 ∷ 101 ∷ 108 ∷ 108 ∷ 111 ∷ []) ∷ confirming "ann" "000001" 60000 ∷ []

passes : verify in_memory toy (serve_all in_memory toy [] run) "ann" "000003" 90000 ≡ ok true
unfolding verify serve_all serve start confirm Stores.mem_get Stores.mem_upsert verify_totp code_at
    truncated padded big_endian b32decode generate_secret groups bits_of read_bits Dict.get Dict.put
passes = refl

serve_all-verify_example :
    (secret : String) × WasShown in_memory toy in_memory-IsRepository run "ann" secret
    × (verify_totp toy secret "000003" 90000 ≡ ok true)
serve_all-verify_example =
    serve_all-verify in_memory toy in_memory-IsRepository [] run "ann" "000003" 90000 nobody passes

start-confirm-verify_example :
    verify file toy
      (serve_all file toy [] (
        starting "ann" (72 ∷ [])
        ∷ confirming "ann" (current_code toy (generate_secret (72 ∷ [])) 60000) 60000
        ∷ []))
      "ann"
      (current_code toy (generate_secret (72 ∷ [])) 90000)
      90000
    ≡ ok true
start-confirm-verify_example =
    start-confirm-verify file toy file-IsRepository [] "ann" (72 ∷ []) 60000 90000 (omega arith)
      (omega arith)
