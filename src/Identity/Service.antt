-- ===== src/Identity/Service.antt =====
-- services/ordering/internal/identity/application/service.go over the store's calls. The password
-- hasher, the token and code generators, the clock, the OAuth verifier, the mailer, the digests,
-- uuid.Parse and unicode.ToLower are the fields of `World`. The calls of Verify on a dummy hash only
-- take time, and are left out.
pub mod Outcomes
pub mod Authorize
pub mod Login
pub mod Logout
pub mod OAuth
pub mod Cashiers
pub mod Registration
use Prim.Native.Char.{Char}
use b46_ordering_app_backend.Base.{
  ℕ, ◌+◌, String, Bool, true, false, not, ◌&&◌, ◌||◌, Option, none, some, Result, ok, err, fail_if,
  or_fail, if◌then◌else◌, ltb, leb, ◌=s=◌, trim_space,
}
use b46_ordering_app_backend.Identity.Domain.{
  Time, Role, role_admin, role_eq, status_eq, account_disabled, is_active, Provider,
  provider_google, provider_eq, is_oauth, OAuthPurpose, oauth_login, oauth_link, purpose_eq,
  OAuthIntent, VerifiedIdentity, User, UserView, Principal, PasswordRecord, NewSession,
  SessionTokens, Step, IdentityError, technical, wrapped, invalid_input, invalid_credentials,
  unauthenticated, forbidden, disabled_account, refresh_reuse, invalid_oauth_intent,
  invalid_oauth_token, password_change_required, query_password, lock_refresh, query_access,
  revoke_family, insert_intent, hash_password, verify_password, new_token, create_session,
  upgrade_hash, normalize_email, validate_password, display_name,
}
use b46_ordering_app_backend.Identity.Tables.{Db, Env}
use b46_ordering_app_backend.Identity.Sessions
use b46_ordering_app_backend.Identity.OAuth.{
  create_oauth_intent, find_oauth_intent, complete_oauth_login, complete_oauth_link,
}
use b46_ordering_app_backend.Identity.Accounts.{user_view, bootstrap_admin, disable_user}
use b46_ordering_app_backend.Identity.Cashiers.{recover_admin_password}

-- What one call of a service meets: the answers of the parts it calls, `token k`, `clock k` and
-- `store k` being those of the k-th use in the call. A none is an error.
pub record World : Type 0 where
  pub access_token_lifetime : Time
  pub refresh_token_lifetime : Time
  pub oauth_intent_lifetime : Time
  pub hash : String → Option String
  pub verify : String → String → Option (Bool × Bool)
  pub token : ℕ → Option String
  pub clock : ℕ → Time
  pub store : ℕ → Env
  pub oauth_verify : Provider → String → String → Option VerifiedIdentity
  pub hash_token : String → String
  pub lower : Char → Char
  pub parses_uuid : String → Bool
  pub new_code : Option String
  pub mailer_configured : Bool
  pub digest : String → String

-- The configuration that New accepts.
unfoldable pub valid_config : World → Bool
valid_config w =
    ltb 0 w.access_token_lifetime
    && ltb w.access_token_lifetime w.refresh_token_lifetime
    && ltb 0 w.oauth_intent_lifetime

-- A call of the service: it reads and changes the tables, and answers with a value or an error.
abbrev pub Call {ℓ} : Type ℓ → Type ℓ
Call A = Db → Result IdentityError A × Db

abbrev pub proceed {ℓ κ} :
    {A : Type ℓ} {B : Type κ}
    → (A → Call B)
    → Result IdentityError A × Db
    → Result IdentityError B × Db
proceed rest (ok a, db) = rest a db
proceed rest (err e, db) = (err e, db)

infixl 5 ◌>>=◌ ◌>>◌
abbrev pub ◌>>=◌ {ℓ κ} : {A : Type ℓ} {B : Type κ} → Call A → (A → Call B) → Call B
(call >>= rest) db = proceed rest (call db)

abbrev pub ◌>>◌ {κ} : {B : Type κ} → Call (Unit {0}) → Call B → Call B
call >> rest = call >>= λ done. rest

abbrev pub give {ℓ} : {A : Type ℓ} → Result IdentityError A → Call A
give answer db = (answer, db)

-- A call of the store that only reads.
abbrev pub reading {ℓ} : {A : Type ℓ} → (Db → Result IdentityError A) → Call A
reading read db = (read db, db)

abbrev pub translated {ℓ} :
    {A : Type ℓ}
    → (IdentityError → IdentityError)
    → Result IdentityError A × Db
    → Result IdentityError A × Db
translated f (ok a, db) = (ok a, db)
translated f (err e, db) = (err (f e), db)

abbrev pub on_error {ℓ} : {A : Type ℓ} → (IdentityError → IdentityError) → Call A → Call A
on_error f call db = translated f (call db)

-- errors.Is sees through the wrapping.
abbrev pub root : IdentityError → IdentityError
root (wrapped s e) = root e
root e = e

abbrev pub session_with :
    World
    → String
    → Option String
    → Option String
    → Result IdentityError (SessionTokens × NewSession)
session_with w user_id none drawn = err (technical new_token)
session_with w user_id (some access) none = err (technical new_token)
session_with w user_id (some access) (some token) = ok (
  record {
    access_token = access;
    access_token_expires_at = w.clock 0 + w.access_token_lifetime;
    refresh_token = token;
    refresh_token_expires_at = w.clock 0 + w.refresh_token_lifetime;
    user = none;
  },
  record {
    user_id = user_id;
    family_id = "";
    parent_session_id = "";
    access_token_hash = w.hash_token access;
    refresh_token_hash = w.hash_token token;
    access_expires_at = w.clock 0 + w.access_token_lifetime;
    refresh_expires_at = w.clock 0 + w.refresh_token_lifetime;
  },
)

unfoldable pub make_session : World → String → Result IdentityError (SessionTokens × NewSession)
make_session w user_id = session_with w user_id (w.token 0) (w.token 1)

abbrev pub with_user : SessionTokens → User → SessionTokens
with_user tokens user = record tokens { user = some user }

-- The end of PasswordLogin and of Verify of the registration service.
unfoldable pub open_session : World → Env → String → Call SessionTokens
unfolding make_session
open_session w env user_id = do
  made ← give (make_session w user_id)
  user ← on_error (wrapped create_session) (Sessions.create_session env made.1)
  give (ok (with_user made.0 user))

abbrev pub is_ok {ℓ} : {A : Type ℓ} → Result IdentityError A → Bool
is_ok (ok a) = true
is_ok (err e) = false

-- The address, when it and the password have the right form; the error else.
abbrev pub well_formed : World → String → String → IdentityError → Result IdentityError String
well_formed w email password e = elim (normalize_email w.lower email) [
  | err _ ↦ err e
  | ok normalized ↦ if is_ok (validate_password password) then ok normalized else err e
]

abbrev pub password_error : IdentityError → IdentityError
password_error e = elim (root e) [
  | invalid_credentials ↦ invalid_credentials
  | _ ↦ wrapped query_password e
]

-- The rehash flag, when the password is right.
abbrev pub judged : Option (Bool × Bool) → Result IdentityError Bool
judged none = err (technical verify_password)
judged (some (true, needs_rehash)) = ok needs_rehash
judged (some (false, needs_rehash)) = err invalid_credentials

abbrev pub check_password : World → String → String → Result IdentityError Bool
check_password w password stored = judged (w.verify password stored)

unfoldable pub upgrade : World → String → String → Bool → Call (Unit {0})
upgrade w user_id password false = give (ok tt)
upgrade w user_id password true = do
  replacement ← give (or_fail (w.hash password) (technical hash_password))
  on_error (wrapped upgrade_hash) (Sessions.update_password_hash (w.store 1) user_id replacement)

unfoldable pub password_login : World → String → String → Call SessionTokens
unfolding upgrade open_session
password_login w email password = do
  normalized ← give (well_formed w email password invalid_credentials)
  found ← on_error password_error (reading (Sessions.find_password (w.store 0) normalized))
  needs_rehash ← give (check_password w password found.password_hash)
  give (fail_if (status_eq found.user.status account_disabled) disabled_account)
  upgrade w found.user.id password needs_rehash
  open_session w (w.store 2) found.user.id

abbrev pub refresh_error : IdentityError → IdentityError
refresh_error e = elim (root e) [
  | refresh_reuse ↦ unauthenticated
  | unauthenticated ↦ unauthenticated
  | disabled_account ↦ unauthenticated
  | _ ↦ wrapped lock_refresh e
]

abbrev pub is_blank : String → Bool
is_blank s = trim_space s =s= ""

unfoldable pub refresh : World → String → Call SessionTokens
unfolding make_session
refresh w refresh_token = do
  give (fail_if (is_blank refresh_token) unauthenticated)
  made ← give (make_session w "")
  user ←
      on_error refresh_error
        (Sessions.rotate_refresh (w.store 0) (w.hash_token refresh_token) made.1 (w.clock 1))
  give (ok (with_user made.0 user))

abbrev pub access_error : IdentityError → IdentityError
access_error e = elim (root e) [
  | unauthenticated ↦ unauthenticated
  | disabled_account ↦ unauthenticated
  | _ ↦ wrapped query_access e
]

unfoldable pub authenticate : World → String → Call Principal
authenticate w access_token = do
  give (fail_if (is_blank access_token) unauthenticated)
  on_error access_error
      (Sessions.authenticate_access (w.store 0) (w.hash_token access_token) (w.clock 0))

abbrev pub logged_out :
    World → Result IdentityError Principal × Db → Result IdentityError (Unit {0}) × Db
logged_out w (ok p, db) =
    on_error (wrapped revoke_family)
      (Sessions.revoke_family_call (w.store 1) p.family_id "LOGOUT" (w.clock 1)) db
logged_out w (err e, db) = elim (root e) [ unauthenticated ↦ (ok tt, db) | _ ↦ (err e, db) ]

unfoldable pub logout : World → String → Call (Unit {0})
unfolding authenticate
logout w access_token db = logged_out w (authenticate w access_token db)

abbrev pub me : World → Principal → Call UserView
me w principal = reading (user_view (w.store 0) principal.user_id)

unfoldable pub bootstrap : World → String → String → String → Call User
bootstrap w name email password = do
  normalized ← give (well_formed w email password invalid_input)
  hash ← give (or_fail (w.hash password) (technical hash_password))
  bootstrap_admin (w.store 0) (display_name name normalized) normalized hash (w.clock 0)

unfoldable pub recover_password : World → String → String → Call User
recover_password w email password = do
  normalized ← give (well_formed w email password invalid_input)
  hash ← give (or_fail (w.hash password) (technical hash_password))
  recover_admin_password (w.store 0) normalized hash (w.clock 0)

unfoldable pub disable : World → Principal → String → Call (Unit {0})
disable w actor user_id = do
  give (fail_if (not (role_eq actor.role role_admin)) forbidden)
  disable_user (w.store 0) actor.user_id user_id (w.clock 0)

unfoldable pub authorize : Principal → Role → Result IdentityError (Unit {0})
authorize principal required =
    if not (is_active principal.status)
    then err unauthenticated
    else if principal.must_change_password
    then err password_change_required
    else if not (role_eq principal.role required)
    then err forbidden
    else ok tt
