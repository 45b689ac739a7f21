-- ===== src/Server/Routes/Gate.antt =====
-- The choke point: what a request may do to the vault rows.
use vault_keep.Base.{
  Option, none, some, Bool, not, ◌||◌, List, String, Thrown, ok, throw, ◌≡◌, refl, ◌⊎◌, inl, inr,
  truthy, or_else, Bool-cases,
}
use vault_keep.Base.Int.{ℤ}
use vault_keep.Server.Token as Token
use vault_keep.Server.Token.{TokenClaims, TokenService}
use vault_keep.Server.Guard.{AuthResult, admitted, denied, authenticate}
use vault_keep.Server.Accounts as Accounts
use vault_keep.Server.Accounts.{AccountRecord}
use vault_keep.Server.Mfa as Mfa
use vault_keep.Server.Mfa.{MfaRecord}
use vault_keep.Server.Recovery as Recovery
use vault_keep.Server.Recovery.Stores.{FileRows}
use vault_keep.Server.Vault as Vault
use vault_keep.Server.Vault.Stores as VaultStores
use vault_keep.Server.Routes.{
  World, Moment, HttpRequest, Open, Gated, Route, ungated, gated, register, mfa_confirm, kdf, login,
  mfa, enroll, recovery_begin, recovery_complete, emergency_request, emergency_collect, approve,
  devices, recovery_setup, recovery_status, add_contact, list_contacts, deny, pull, nothing, push,
  delete, registered, confirmed, handed_back, reset, completed, setup_done, device_lookup,
  behind_guard, handle_open, handle_gated, handle_route, handle, route,
}

module _ (out : Token.Outside) (tokens : TokenService) (accounts_rt : Accounts.Runtime)
    (mfa_rt : Mfa.Runtime) (verify : String → String → String → Thrown Bool)
    (recovery_rt : Recovery.Runtime) (parse : String → Option ℤ) where
  registered-vault :
      (w : World) (m : Moment) (r : Thrown (String × List AccountRecord))
      → (registered out tokens accounts_rt mfa_rt verify recovery_rt parse w m r).0.vault ≡ w.vault
  registered-vault w m (throw e) = refl
  registered-vault w m (ok (user, accounts)) = refl

  confirmed-vault :
      (w : World) (r : Thrown Bool × List MfaRecord)
      → (confirmed out tokens accounts_rt mfa_rt verify recovery_rt parse w r).0.vault ≡ w.vault
  confirmed-vault w (throw e, codes) = refl
  confirmed-vault w (ok b, codes) = refl

  handed_back-vault :
      (w : World) (email : String) (o : Option String)
      → (handed_back out tokens accounts_rt mfa_rt verify recovery_rt parse w email o).0.vault
        ≡ w.vault
  handed_back-vault w email none = refl
  handed_back-vault w email (some key) = refl

  reset-vault :
      (w : World) (r : Thrown (List AccountRecord))
      → (reset out tokens accounts_rt mfa_rt verify recovery_rt parse w r).0.vault ≡ w.vault
  reset-vault w (throw e) = refl
  reset-vault w (ok accounts) = refl

  completed-vault :
      (w : World) (user key : Option String) (verifier salt : String)
      → (completed out tokens accounts_rt mfa_rt verify recovery_rt parse w user key verifier
          salt).0.vault
        ≡ w.vault
  completed-vault w (some user) (some key) verifier salt =
      reset-vault w (Accounts.reset_verifier accounts_rt w.accounts user verifier salt)
  completed-vault w none key verifier salt = refl
  completed-vault w (some user) none verifier salt = refl

  setup_done-vault :
      (w : World) (r : Thrown FileRows)
      → (setup_done out tokens accounts_rt mfa_rt verify recovery_rt parse w r).0.vault ≡ w.vault
  setup_done-vault w (throw e) = refl
  setup_done-vault w (ok rows) = refl

  handle_open-vault :
      (w : World) (req : HttpRequest) (m : Moment) (o : Open)
      → (handle_open out tokens accounts_rt mfa_rt verify recovery_rt parse w req m o).0.vault
        ≡ w.vault
  unfolding handle_open
  handle_open-vault w req m register = registered-vault w m _
  handle_open-vault w req m mfa_confirm = confirmed-vault w _
  handle_open-vault w req m kdf = refl
  handle_open-vault w req m login = refl
  handle_open-vault w req m mfa = refl
  handle_open-vault w req m recovery_begin = handed_back-vault w _ _
  handle_open-vault w req m recovery_complete = completed-vault w _ _ _ _
  handle_open-vault w req m emergency_request = refl
  handle_open-vault w req m emergency_collect = refl
  handle_open-vault w req m (approve id) = refl
  handle_open-vault w req m enroll =
      elim (Bool-cases (
        not (truthy (or_else "" (req.body "userId")))
        || (not (truthy (or_else "" (req.body "publicKey")))
            || not (truthy (or_else "" (req.body "signingPublicKey")))))) [
              | inl e ↦ rw e refl
              | inr e ↦ rw e refl
            ]

  -- The vault rows are what they were, or what one request of the user to the vault service made them.
  abbrev pub Served : World → World → String → Type 0
  Served w w' user =
      (w'.vault ≡ w.vault)
      ⊎ ((r : Vault.Request) × (Vault.requester r ≡ user)
          × (w'.vault ≡ (Vault.serve (VaultStores.file parse) w.vault r).0))

  handle_gated-Served :
      (w : World) (req : HttpRequest) (m : Moment) (user : String) (g : Gated)
      → Served w
          (handle_gated out tokens accounts_rt mfa_rt verify recovery_rt parse w req m user g).0
          user
  unfolding handle_gated
  handle_gated-Served w req m user devices = inl refl
  handle_gated-Served w req m user recovery_setup = inl (setup_done-vault w _)
  handle_gated-Served w req m user recovery_status = inl refl
  handle_gated-Served w req m user add_contact = inl refl
  handle_gated-Served w req m user list_contacts = inl refl
  handle_gated-Served w req m user deny = inl refl
  handle_gated-Served w req m user pull = inr (Vault.pulling user req.since, refl, refl)
  handle_gated-Served w req m user (push id) = inr (Vault.pushing user _ m.iso, refl, refl)
  handle_gated-Served w req m user (delete id) = inr (Vault.deleting user id, refl, refl)
  handle_gated-Served w req m user nothing = inl refl

  -- A request of the vault service made in the name of a user whom the guard admitted.
  abbrev pub ServedBehind : World → HttpRequest → Moment → World → Type 0
  ServedBehind w req m w' =
      (claims : TokenClaims) × (authenticate out tokens
          (device_lookup out tokens accounts_rt mfa_rt verify recovery_rt parse w) m.now
          req.authorization
        ≡ admitted claims)
      × (r : Vault.Request) × (Vault.requester r ≡ claims.sub)
      × (w'.vault ≡ (Vault.serve (VaultStores.file parse) w.vault r).0)

  behind_guard-vault :
      (w : World) (req : HttpRequest) (m : Moment) (g : Gated) (a : AuthResult)
      → authenticate out tokens
          (device_lookup out tokens accounts_rt mfa_rt verify recovery_rt parse w)
          m.now
          req.authorization
        ≡ a
      → ((behind_guard out tokens accounts_rt mfa_rt verify recovery_rt parse w req m g a).0.vault
          ≡ w.vault)
        ⊎ ServedBehind w req m
            (behind_guard out tokens accounts_rt mfa_rt verify recovery_rt parse w req m g a).0
  behind_guard-vault w req m g (denied status message) h = inl refl
  behind_guard-vault w req m g (admitted claims) h =
      elim (handle_gated-Served w req m claims.sub g) [
        | inl same ↦ inl same
        | inr (r, mine, served) ↦ inr (claims, h, r, mine, served)
      ]

  handle_route-vault :
      (w : World) (req : HttpRequest) (m : Moment) (o : Route)
      → ((handle_route out tokens accounts_rt mfa_rt verify recovery_rt parse w req m o).0.vault
          ≡ w.vault)
        ⊎ ServedBehind w req m
            (handle_route out tokens accounts_rt mfa_rt verify recovery_rt parse w req m o).0
  handle_route-vault w req m (ungated o) = inl (handle_open-vault w req m o)
  handle_route-vault w req m (gated g) = behind_guard-vault w req m g _ refl

  -- Whatever a request asks for, the vault rows afterwards are what they were, or the guard admitted
  -- the request and they are what one request to the vault service made them, in the name of the user
  -- of the admitted token.
  pub handle-vault :
      (w : World) (req : HttpRequest) (m : Moment)
      → ((handle out tokens accounts_rt mfa_rt verify recovery_rt parse w req m).0.vault ≡ w.vault)
        ⊎ ServedBehind w req m
            (handle out tokens accounts_rt mfa_rt verify recovery_rt parse w req m).0
  unfolding handle
  handle-vault w req m = handle_route-vault w req m (route req.method req.path)
