-- ===== src/Server/Routes.antt =====
-- The request handler of packages/server/src/main.ts over the file stores, but for static files,
-- passkeys, device assertions and the breach range, which leave these stores as they are: requests for
-- them are no arguments of `handle`. A field of a JSON body is a text or missing; a device approval without its texts is
-- read as one with empty texts, which name no device.
mod Paths
pub mod Gate
mod Tests
unfoldable pub use Paths.*
use vault_keep.Base.{
  ℕ, ◌+◌, Option, none, some, Bool, true, false, not, ◌&&◌, ◌||◌, if◌then◌else◌, ◌==◌, leb, List,
  [], ◌∷◌, String, Thrown, ok, throw, str_eq, truthy, or_else, split_on,
}
use Prim.Native.Char.{Char, code}
use Prim.Native.String
use vault_keep.Base.Int.{ℤ}
use vault_keep.Server.Token as Token
use vault_keep.Server.Token.{TokenClaims, TokenService}
use vault_keep.Server.Guard.{AuthResult, admitted, denied, authenticate}
use vault_keep.Server.Accounts as Accounts
use vault_keep.Server.Accounts.{AccountRecord, PublicKdf}
use vault_keep.Server.Mfa as Mfa
use vault_keep.Server.Mfa.{MfaRecord}
use vault_keep.Server.Mfa.Stores as MfaStores
use vault_keep.Server.Devices as Devices
use vault_keep.Server.Devices.{DeviceRecord, ApproveResult}
use vault_keep.Server.Devices.Stores as DeviceStores
use vault_keep.Server.Recovery as Recovery
use vault_keep.Server.Recovery.{Collected, Contact}
use vault_keep.Server.Recovery.Stores as RecoveryStores
use vault_keep.Server.Recovery.Stores.{FileRows}
use vault_keep.Server.Vault as Vault
use vault_keep.Server.Vault.{StoredItem}
use vault_keep.Server.Vault.Stores as VaultStores
use vault_keep.Server.Login as Login

-- What the file holds, but for passkeys.
pub record World : Type 0 where
  pub accounts : List AccountRecord
  pub mfa : List MfaRecord
  pub devices : List DeviceRecord
  pub recovery : FileRows
  pub vault : List StoredItem

-- What a request brings along: the clock, as a number and as a text, a new id, and random bytes.
pub record Moment : Type 0 where
  pub now : ℕ
  pub iso : String
  pub uuid : String
  pub salt : String
  pub random : List ℕ

pub record HttpRequest : Type 0 where
  pub method : String
  pub path : String
  pub authorization : Option String
  pub since : Option String
  pub body : String → Option String
  pub base_version : Option ℕ
  pub kdf_memory_kib : Option ℕ
  pub kdf_iterations : Option ℕ
  pub kdf_parallel : Option ℕ

pub data Payload : Type 0 where
  error : String → Payload
  done : Bool → Payload
  created_user : (user_id : String) → (secret : String) → Payload
  params : PublicKdf → Payload
  login_answer : Login.Answer → Payload
  device : DeviceRecord → Payload
  device_list : List DeviceRecord → Payload
  approval : ApproveResult → Payload
  wrapped : String → PublicKdf → Payload
  unlocks_at : Option String → Payload
  collected : Collected → Payload
  configured : Bool → Payload
  contact : Contact → Payload
  contacts : List Contact → Payload
  vault_reply : Vault.Reply → Payload

pub record HttpReply : Type 0 where
  pub status : ℕ
  pub payload : Payload

abbrev pub json : World → ℕ → Payload → World × HttpReply
json w status payload = (w, record { status = status; payload = payload })

module _ (out : Token.Outside) (tokens : TokenService) (accounts_rt : Accounts.Runtime)
    (mfa_rt : Mfa.Runtime) (verify : String → String → String → Thrown Bool)
    (recovery_rt : Recovery.Runtime) (parse : String → Option ℤ) where
  -- `b.field ?? ""`
  abbrev pub field : HttpRequest → String → String
  field req name = or_else "" (req.body name)

  abbrev pub register_input : HttpRequest → Accounts.RegisterInput
  register_input req = record {
    email = field req "email";
    auth_verifier = field req "authVerifier";
    kdf_salt = field req "kdfSalt";
    kdf_memory_kib = req.kdf_memory_kib;
    kdf_iterations = req.kdf_iterations;
    kdf_parallel = req.kdf_parallel;
  }

  abbrev pub registered : World → Moment → Thrown (String × List AccountRecord) → World × HttpReply
  registered w m (throw e) = json w 400 (error e)
  registered w m (ok (user_id, accounts)) =
      let (secret, codes) = Mfa.start MfaStores.file mfa_rt w.mfa user_id m.random in
      json (record w { accounts = accounts; mfa = codes }) 201 (created_user user_id secret)

  abbrev pub confirmed : World → Thrown Bool × List MfaRecord → World × HttpReply
  confirmed w (throw e, codes) = json w 500 (error e)
  confirmed w (ok b, codes) = json (record w { mfa = codes }) (if b then 200 else 400) (done b)

  abbrev pub login_status : Login.Answer → ℕ
  login_status Login.invalid_credentials = 401
  login_status Login.invalid_token = 401
  login_status Login.invalid_code = 401
  login_status (Login.failed e) = 500
  login_status _ = 200

  abbrev pub enroll_input : HttpRequest → Devices.EnrollInput
  enroll_input req = record {
    user_id = field req "userId";
    name = or_else "Unnamed device" (req.body "name");
    platform = or_else "unknown" (req.body "platform");
    public_key = field req "publicKey";
    signing_public_key = field req "signingPublicKey";
  }

  abbrev pub approved_status : Thrown ApproveResult → ℕ × Payload
  approved_status (throw e) = (500, error e)
  approved_status (ok Devices.approved) = (200, approval Devices.approved)
  approved_status (ok (Devices.refused reason)) = (403, approval (Devices.refused reason))

  abbrev pub handed_back : World → String → Option String → World × HttpReply
  handed_back w email none = json w 401 (error "invalid recovery key")
  handed_back w email (some key) =
      json w 200 (wrapped key (Accounts.kdf_params_for accounts_rt w.accounts email))

  -- `const out = uid ? await recovery.begin(uid, ...) : null`
  abbrev pub begun : World → Option String → String → Option String
  begun w none verifier = none
  begun w (some user) verifier =
      (Recovery.begin RecoveryStores.file recovery_rt w.recovery user verifier).0

  abbrev pub reset : World → Thrown (List AccountRecord) → World × HttpReply
  reset w (throw e) = json w 400 (error e)
  reset w (ok accounts) = json (record w { accounts = accounts }) 200 (done true)

  abbrev pub completed : World → Option String → Option String → String → String → World × HttpReply
  completed w (some user) (some key) verifier salt =
      reset w (Accounts.reset_verifier accounts_rt w.accounts user verifier salt)
  completed w none _ verifier salt = json w 401 (error "invalid recovery key")
  completed w (some user) none verifier salt = json w 401 (error "invalid recovery key")

  abbrev pub request_reply : Option (Option String) → ℕ × Payload
  request_reply none = (403, error "request refused")
  request_reply (some unlock_at) = (202, unlocks_at unlock_at)

  abbrev pub collect_reply : Collected → ℕ × Payload
  collect_reply Recovery.refused = (403, error "collect refused")
  collect_reply (Recovery.waiting unlock_at) = (403, collected (Recovery.waiting unlock_at))
  collect_reply (Recovery.sealed key blob) = (200, collected (Recovery.sealed key blob))

  unfoldable pub handle_open : World → HttpRequest → Moment → Open → World × HttpReply
  handle_open w req m register =
      registered w m
        (Accounts.register accounts_rt w.accounts (register_input req) m.uuid m.salt m.iso)
  handle_open w req m mfa_confirm =
      confirmed w
        (Mfa.confirm MfaStores.file mfa_rt w.mfa (field req "userId") (field req "code") m.now)
  handle_open w req m kdf =
      json w 200 (params (Accounts.kdf_params_for accounts_rt w.accounts (field req "email")))
  handle_open w req m login =
      let answer =
        Login.login out tokens accounts_rt mfa_rt MfaStores.file w.accounts (field req "email")
          (field req "authVerifier") (field req "deviceId") m.now in
      json w (login_status answer) (login_answer answer)
  handle_open w req m mfa =
      let answer =
        Login.mfa out tokens accounts_rt mfa_rt MfaStores.file w.mfa (field req "token")
          (field req "code") m.now in
      json w (login_status answer) (login_answer answer)
  handle_open w req m enroll =
      if not (truthy (field req "userId"))
        || (not (truthy (field req "publicKey")) || not (truthy (field req "signingPublicKey")))
      then json w 400 (error "missing device fields")
      else let (rows, rec) =
          Devices.enroll DeviceStores.file w.devices (enroll_input req) m.uuid m.iso in
        json (record w { devices = rows }) 201 (device rec)
  handle_open w req m (approve id) =
      let (rows, result) =
        Devices.approve DeviceStores.file verify w.devices (field req "userId")
          (field req "approverDeviceId") id (field req "signature") in
      json (record w { devices = rows }) (approved_status result).0 (approved_status result).1
  handle_open w req m recovery_begin =
      let user = Accounts.id_for accounts_rt w.accounts (field req "email") in
      handed_back w (field req "email") (begun w user (field req "authVerifier"))
  handle_open w req m recovery_complete =
      let user = Accounts.id_for accounts_rt w.accounts (field req "email") in
      completed w user (begun w user (field req "authVerifier")) (field req "newAuthVerifier")
        m.salt
  handle_open w req m emergency_request =
      let (rows, unlock_at, notices) =
        Recovery.request_access RecoveryStores.file recovery_rt w.recovery (field req "contactId")
          (field req "signature") m.now in
      json (record w { recovery = rows }) (request_reply unlock_at).0 (request_reply unlock_at).1
  handle_open w req m emergency_collect =
      let (rows, result, notices) =
        Recovery.collect RecoveryStores.file recovery_rt w.recovery (field req "contactId")
          (field req "signature") m.now in
      json (record w { recovery = rows }) (collect_reply result).0 (collect_reply result).1

  abbrev pub setup_done : World → Thrown FileRows → World × HttpReply
  setup_done w (throw e) = json w 400 (error e)
  setup_done w (ok rows) = json (record w { recovery = rows }) 201 (done true)

  abbrev pub added : Thrown Contact → ℕ × Payload
  added (throw e) = (400, error e)
  added (ok c) = (201, contact c)

  abbrev pub vault_status : Vault.Reply → ℕ
  vault_status (Vault.pushed (Vault.conflicting v server)) = 409
  vault_status Vault.deleted = 204
  vault_status _ = 200

  -- A request to the vault service on behalf of the user.
  abbrev pub on_vault : World → Vault.Request → World × HttpReply
  on_vault w r =
      let (rows, reply) = Vault.serve (VaultStores.file parse) w.vault r in
      json (record w { vault = rows }) (vault_status reply) (vault_reply reply)

  abbrev pub contact_input : String → HttpRequest → Recovery.ContactInput
  contact_input user req = record {
    user_id = user;
    contact_email = field req "contactEmail";
    contact_signing_public_key = field req "contactSigningPublicKey";
    ephemeral_public_key = field req "ephemeralPublicKey";
    wrapped_key = field req "wrappedKey";
  }

  unfoldable pub handle_gated : World → HttpRequest → Moment → String → Gated → World × HttpReply
  handle_gated w req m user devices =
      json w 200 (device_list (Devices.list DeviceStores.file w.devices user))
  handle_gated w req m user recovery_setup = setup_done w (
      Recovery.setup RecoveryStores.file recovery_rt w.recovery m.now m.salt user
        (field req "authVerifier") (field req "wrappedKey"))
  handle_gated w req m user recovery_status =
      json w 200
        (configured (Recovery.is_configured RecoveryStores.file recovery_rt w.recovery user))
  handle_gated w req m user add_contact =
      let (rows, result) =
        Recovery.add_contact RecoveryStores.file recovery_rt w.recovery (contact_input user req)
          m.uuid m.now in
      json (record w { recovery = rows }) (added result).0 (added result).1
  handle_gated w req m user list_contacts =
      json w 200 (contacts (RecoveryStores.file_list_contacts w.recovery user))
  handle_gated w req m user deny =
      let (rows, b, notices) =
        Recovery.deny RecoveryStores.file recovery_rt w.recovery user (field req "contactId") in
      json (record w { recovery = rows }) (if b then 200 else 404) (done b)
  handle_gated w req m user pull = on_vault w (Vault.pulling user req.since)
  handle_gated w req m user (push id) = on_vault w (
      Vault.pushing user
        (record { id = id; ciphertext = field req "ciphertext"; base_version = req.base_version })
        m.iso)
  handle_gated w req m user (delete id) = on_vault w (Vault.deleting user id)
  handle_gated w req m user nothing = json w 404 (error "not found")

  -- `if (!auth.ok) return json(res, auth.status, ...)`
  abbrev pub behind_guard : World → HttpRequest → Moment → Gated → AuthResult → World × HttpReply
  behind_guard w req m g (denied status message) = json w status (error message)
  behind_guard w req m g (admitted claims) = handle_gated w req m claims.sub g

  abbrev pub device_lookup : World → String → String → Bool
  device_lookup w user id = Devices.is_approved DeviceStores.file w.devices user id

  abbrev pub handle_route : World → HttpRequest → Moment → Route → World × HttpReply
  handle_route w req m (ungated o) = handle_open w req m o
  handle_route w req m (gated g) =
      behind_guard w req m g (authenticate out tokens (device_lookup w) m.now req.authorization)

  unfoldable pub handle : World → HttpRequest → Moment → World × HttpReply
  handle w req m = handle_route w req m (route req.method req.path)
