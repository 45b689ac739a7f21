-- ===== src/Server/Token/Tests.antt =====
-- Tokens under a toy encoding, in which every byte is a letter.
use Prim.Native.Char.{Char, code}
use vault_keep.Base.{
  ℕ, none, some, Bool, true, false, if◌then◌else◌, List, [], ◌∷◌, String, ok, throw, str_eq, ltb,
  ◌↔◌, ◌≡◌, ◌≢◌, sym, refl, arith, NoChar, text_length, split_on,
}
use vault_keep.Server.Token.{
  TokenClaims, Outside, TokenService, new_token_service, issue, verify, b64url, b64url_text,
}
use vault_keep.Server.Token.RoundTrip.{IsNode, verify-issue, verify_lem, IsGood}

abbrev letter : Bool → Char
letter b = if b then "A" else "B"

-- `A` for an even number and `B` for an odd one
abbrev letters : List ℕ → String
letters [] = String.[]
letters (n ∷ ns) = String.◌∷◌ (letter (ltb n 2)) (letters ns)

abbrev ann : TokenClaims
ann = record { sub = "ann"; did = "d1"; mfa = true; exp = 3600 }

-- The only claims of this encoding are Ann's.
abbrev pub toy : Outside
toy = record {
  hmac_sha256 = λ secret text. text_length secret ∷ 1 ∷ [];
  to_base64 = letters;
  from_base64 = λ text. text;
  utf8 = λ text. text_length text ∷ [];
  stringify = λ claims. "";
  parse = λ text. if str_eq text "A" then ok ann else throw "Unexpected token";
}

letter-ne : (d : ℕ) (b : Bool) → d ≢ b'A' → d ≢ b'B' → code (letter b) ≢ d
letter-ne d true ha hb = λ e. ha (sym e)
letter-ne d false ha hb = λ e. hb (sym e)

NoChar-letters : (d : ℕ) (ns : List ℕ) → d ≢ b'A' → d ≢ b'B' → NoChar d (letters ns)
NoChar-letters d [] ha hb = tt
NoChar-letters d (n ∷ ns) ha hb = (letter-ne d (ltb n 2) ha hb, NoChar-letters d ns ha hb)

pub toy-IsNode : IsNode toy
toy-IsNode = record {
  no_dash = λ ns. NoChar-letters b'-' ns (omega arith) (omega arith);
  no_low_line = λ ns. NoChar-letters b'_' ns (omega arith) (omega arith);
  no_dot = λ ns. NoChar-letters b'.' ns (omega arith) (omega arith);
}

abbrev pub service : TokenService
service = record { secret = "0123456789abcdef" }

short_secret : new_token_service "0123456789" ≡ throw "JWT secret must be at least 16 chars"
unfolding new_token_service
short_secret = refl

issued : issue toy service "ann" "d1" true 3600 0 ≡ "B.A.BA"
unfolding issue b64url b64url_text
issued = refl

forged : verify toy service 0 "B.A.AA" ≡ none
unfolding verify b64url split_on
forged = refl

verify-issue_example :
    verify toy service 3600999 (issue toy service "ann" "d1" true 3600 0)
    ≡ some (record { sub = "ann"; did = "d1"; mfa = true; exp = 3600 })
verify-issue_example = verify-issue toy toy-IsNode service "ann" "d1" true 3600 0 3600999 refl

verify_lem_example : (verify toy service 0 "B.A.BA" ≡ some ann) ↔ IsGood toy service 0 "B.A.BA" ann
verify_lem_example = verify_lem toy service 0 ann "B.A.BA"
