-- ===== src/Identity/Accounts.antt =====
-- The account calls of identity/adapters/postgres/store.go.
pub mod Disabled
pub mod Bootstrap
use b46_ordering_app_backend.Base.{
  String, Bool, false, not, Option, none, some, List, [], Result, ok, err, ◌>>=◌, ◌>>◌, fail_if,
  or_fail, if◌then◌else◌, ◌=s=◌, find_first, update_where, keep, map, text_lt,
}
use b46_ordering_app_backend.Base.Sort.{sort_by}
use b46_ordering_app_backend.Identity.Domain.{
  Time, Role, role_admin, role_eq, AccountStatus, account_disabled, Provider, provider_password,
  provider_google, provider_apple, unknown_provider, User, UserView, IdentityError, technical,
  unauthenticated, invalid_input, admin_already_exists, query_user, query_providers, lock_bootstrap,
  find_admin, insert_user, insert_identity, insert_audit, disable_account, revoke_sessions,
}
use b46_ordering_app_backend.Identity.Tables.{
  Db, Env, UserRow, IdentityRow, SessionRow, is_set, attempt, transaction,
}
use b46_ordering_app_backend.Identity.Sessions.{
  user_of, null_if_empty, find_user, add_audit, success, revoked,
}
use b46_ordering_app_backend.Identity.OAuth.{add_user, add_identity, new_user}

abbrev provider_text : Provider → String
provider_text provider_password = "PASSWORD"
provider_text provider_google = "GOOGLE"
provider_text provider_apple = "APPLE"
provider_text (unknown_provider s) = s

-- `SELECT provider ... WHERE user_id = $1 ORDER BY provider`.
unfoldable pub providers_of : String → Db → List Provider
providers_of id db =
    sort_by (λ a b. text_lt (provider_text a) (provider_text b))
      (map IdentityRow.provider (keep (λ i. i.user_id =s= id) db.identities))

unfoldable pub user_view : Env → String → Db → Result IdentityError UserView
unfolding providers_of
user_view env id db = do
  attempt env query_user
  u ← or_fail (find_user id db) unauthenticated
  attempt env query_providers
  ok (record {
    user = user_of u;
    providers = providers_of id db;
    audit = [];
    created = false;
    email_verified = false;
  })

-- userByRole: one row of the role, and the columns that it selects.
abbrev pub has_role : Role → UserRow → Bool
has_role role u = role_eq u.role role

abbrev pub bare_user_of : UserRow → User
bare_user_of u = record (user_of u) { must_change_password = false }

abbrev pub password_identity : String → String → String → IdentityRow
password_identity user_id email hash = record {
  user_id = user_id;
  provider = provider_password;
  provider_subject = email;
  password_hash = some hash;
}

unfoldable pub bootstrap_new :
    Env
    → String
    → String
    → String
    → Time
    → Db
    → Result IdentityError (Result IdentityError User × Db)
unfolding add_user add_identity add_audit
bootstrap_new env name email hash now db = do
  let u = new_user env name email role_admin
  created ← add_user env (technical insert_user) u db
  named ← add_identity env (technical insert_identity) (password_identity u.id email hash) created
  attempt env insert_audit
  ok (
    ok (user_of u),
    add_audit env (null_if_empty u.id) "ADMIN_BOOTSTRAPPED" "USER" u.id success now named,
  )

unfoldable pub bootstrap_with :
    Env
    → String
    → String
    → String
    → Time
    → Db
    → Option UserRow
    → Result IdentityError (Result IdentityError User × Db)
unfolding bootstrap_new
bootstrap_with env name email hash now db (some u) =
    if u.normalized_email =s= email then ok (ok (bare_user_of u), db) else err admin_already_exists
bootstrap_with env name email hash now db none = bootstrap_new env name email hash now db

unfoldable pub bootstrap_body :
    Env
    → String
    → String
    → String
    → Time
    → Db
    → Result IdentityError (Result IdentityError User × Db)
unfolding bootstrap_with
bootstrap_body env name email hash now db = do
  attempt env lock_bootstrap
  attempt env find_admin
  bootstrap_with env name email hash now db (find_first (has_role role_admin) db.users)

unfoldable pub bootstrap_admin :
    Env → String → String → String → Time → Db → Result IdentityError User × Db
unfolding bootstrap_body
bootstrap_admin env name email hash now db =
    transaction env (bootstrap_body env name email hash now) db

abbrev pub set_status : AccountStatus → String → Db → Db
set_status status id db = record db {
  users = update_where (λ u. u.id =s= id) (λ u. record u { account_status = status }) db.users;
}

abbrev pub set_must_change : Bool → String → Db → Db
set_must_change must id db = record db {
  users = update_where (λ u. u.id =s= id) (λ u. record u { must_change_password = must }) db.users;
}

abbrev pub of_user : String → SessionRow → Bool
of_user id s = s.user_id =s= id

unfoldable pub disable_body :
    Env → String → String → Time → Db → Result IdentityError (Result IdentityError (Unit {0}) × Db)
unfolding add_audit
disable_body env actor_id user_id now db = do
  attempt env disable_account
  fail_if (not (is_set (find_user user_id db))) invalid_input
  let disabled = set_status account_disabled user_id db
  attempt env revoke_sessions
  let shut = record disabled {
    sessions = update_where (of_user user_id) (revoked "ACCOUNT_DISABLED" now) disabled.sessions;
  }
  attempt env insert_audit
  ok (
    ok tt,
    add_audit env (null_if_empty actor_id) "ACCOUNT_DISABLED" "USER" user_id success now shut,
  )

unfoldable pub disable_user :
    Env → String → String → Time → Db → Result IdentityError (Unit {0}) × Db
unfolding disable_body
disable_user env actor_id user_id now db =
    transaction env (disable_body env actor_id user_id now) db
