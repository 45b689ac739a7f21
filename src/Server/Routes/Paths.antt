-- ===== src/Server/Routes/Paths.antt =====
-- The routes of packages/server/src/main.ts: which request is for which handler, by its method and
-- path.
use Prim.Native.Char.{code}
use vault_keep.Base.{
  ℕ, Option, none, some, Bool, true, not, ◌&&◌, ◌||◌, if◌then◌else◌, ◌==◌, leb, List, [], ◌∷◌,
  String, str_eq, truthy, split_on,
}

-- The routes before the guard, and those below it.
pub data Open : Type 0 where
  register mfa_confirm kdf login mfa enroll recovery_begin recovery_complete emergency_request
        emergency_collect :
      Open
  approve : (device_id : String) → Open

pub data Gated : Type 0 where
  devices recovery_setup recovery_status add_contact list_contacts deny pull nothing : Gated
  push : (id : String) → Gated
  delete : (id : String) → Gated

pub data Route : Type 0 where
  ungated : Open → Route
  gated : Gated → Route

-- `[\w-]`
abbrev pub is_word_char : ℕ → Bool
is_word_char c =
    leb b'a' c && leb c b'z'
    || (leb b'A' c && leb c b'Z' || (leb b'0' c && leb c b'9' || (c == b'_' || c == b'-')))

-- `[\w-]*`
abbrev pub all_word_chars : String → Bool
all_word_chars String.[] = true
all_word_chars (String.◌∷◌ c s) = is_word_char (code c) && all_word_chars s

-- `[\w-]+`
abbrev pub is_word : String → Bool
is_word s = truthy s && all_word_chars s

-- `/^\/devices\/([\w-]+)\/approve$/`, of the path's segments
abbrev pub approve_match : List String → Option String
approve_match (a ∷ b ∷ id ∷ c ∷ []) =
    if truthy a || (not (str_eq b "devices") || (not (str_eq c "approve") || not (is_word id)))
    then none
    else some id
approve_match _ = none

-- `/^\/vault\/items\/([\w-]+)$/`, of the path's segments
abbrev pub item_match : List String → Option String
item_match (a ∷ b ∷ c ∷ id ∷ []) =
    if truthy a || (not (str_eq b "vault") || (not (str_eq c "items") || not (is_word id)))
    then none
    else some id
item_match _ = none

abbrev pub route_item : String → Option String → Gated
route_item method none = nothing
route_item method (some id) =
    if str_eq method "PUT" then push id else if str_eq method "DELETE" then delete id else nothing

abbrev pub route_gated : String → String → Gated
route_gated method path =
    let get = λ (p : String). str_eq method "GET" && str_eq path p in
    let post = λ (p : String). str_eq method "POST" && str_eq path p in
    if get "/devices"
    then devices
    else if post "/recovery/setup"
    then recovery_setup
    else if get "/recovery/status"
    then recovery_status
    else if post "/emergency/contacts"
    then add_contact
    else if get "/emergency/contacts"
    then list_contacts
    else if post "/emergency/deny"
    then deny
    else if get "/vault/items"
    then pull
    else route_item method (item_match (split_on b'/' path))

abbrev pub route_approve : String → String → Option String → Route
route_approve method path none = gated (route_gated method path)
route_approve method path (some id) =
    if str_eq method "POST" then ungated (approve id) else gated (route_gated method path)

-- The chain of tests of the method and the path.
unfoldable pub route : String → String → Route
route method path =
    let post = λ (p : String). str_eq method "POST" && str_eq path p in
    if post "/auth/register"
    then ungated register
    else if post "/auth/mfa/confirm"
    then ungated mfa_confirm
    else if post "/auth/kdf"
    then ungated kdf
    else if post "/auth/login"
    then ungated login
    else if post "/auth/mfa"
    then ungated mfa
    else if post "/devices/enroll"
    then ungated enroll
    else if post "/recovery/begin"
    then ungated recovery_begin
    else if post "/recovery/complete"
    then ungated recovery_complete
    else if post "/emergency/request"
    then ungated emergency_request
    else if post "/emergency/collect"
    then ungated emergency_collect
    else route_approve method path (approve_match (split_on b'/' path))
