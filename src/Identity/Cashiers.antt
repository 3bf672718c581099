-- ===== src/Identity/Cashiers.antt =====
-- identity/adapters/postgres/cashiers.go: managing cashiers, and passwords. The collation of the
-- database is the argument `before`.
use b46_ordering_app_backend.Base.{
  String, Bool, true, false, not, ◌&&◌, ◌||◌, Option, none, some, List, [], Result, ok, err, ◌>>=◌,
  ◌>>◌, fail_if, or_fail, if◌then◌else◌, ltb, ◌=s=◌, find_first, update_where, keep, map, take,
  text_lt,
}
use b46_ordering_app_backend.Base.Sort.{sort_by}
use b46_ordering_app_backend.Identity.Domain.{
  Time, role_admin, role_cashier, role_eq, AccountStatus, account_disabled, unknown_status,
  status_eq, is_active, User, UserView, AuditEntry, IdentityError, disabled_account, invalid_input,
  invalid_credentials, admin_not_found, cashier_not_found, lock_user, query_providers, find_admin,
  insert_audit, revoke_sessions, list_rows, read_cashier, read_audit, update_status, update_hash,
  require_change,
}
use b46_ordering_app_backend.Identity.Tables.{
  Db, Env, UserRow, IdentityRow, SessionRow, AuditRow, is_set, coalesce, has, attempt, transaction,
}
use b46_ordering_app_backend.Identity.Sessions.{
  user_of, null_if_empty, find_user, user_by_id_for_update, add_audit, success, revoked,
  has_password, set_hash,
}
use b46_ordering_app_backend.Identity.Accounts.{
  providers_of, bare_user_of, set_status, set_must_change,
}

-- `$1 = '' OR u.account_status = $1`.
abbrev pub is_listed : AccountStatus → UserRow → Bool
is_listed status u =
    role_eq u.role role_cashier
    && (status_eq status (unknown_status "") || status_eq u.account_status status)

abbrev cashier_before : (String → String → Bool) → UserRow → UserRow → Bool
cashier_before before a b = before a.name b.name || (a.name =s= b.name && text_lt a.id b.id)

abbrev pub view_of : Db → UserRow → UserView
view_of db u = record {
  user = user_of u;
  providers = providers_of u.id db;
  audit = [];
  created = false;
  email_verified = is_set u.email_verified_at;
}

unfoldable pub list_cashiers :
    (String → String → Bool) → Env → AccountStatus → Db → Result IdentityError (List UserView)
unfolding providers_of
list_cashiers before env status db = do
  attempt env list_rows
  ok (map (view_of db) (sort_by (cashier_before before) (keep (is_listed status) db.users)))

abbrev audit_entry : AuditRow → AuditEntry
audit_entry a = record {
  action = a.action;
  actor_user_id = coalesce a.actor_user_id "";
  outcome = coalesce a.outcome "success";
  occurred_at = a.occurred_at;
}

-- `ORDER BY occurred_at DESC, id DESC LIMIT 20`.
unfoldable pub audit_of : String → Db → List AuditEntry
audit_of id db =
    let newer : AuditRow → AuditRow → Bool = λ a b.
      ltb b.occurred_at a.occurred_at
      || (not (ltb a.occurred_at b.occurred_at) && text_lt b.id a.id) in
    map audit_entry (
      take 20 (sort_by newer (keep (λ a. a.target_type =s= "USER" && a.target_id =s= id) db.audit)))

abbrev pub is_cashier : String → UserRow → Bool
is_cashier id u = u.id =s= id && role_eq u.role role_cashier

unfoldable pub cashier_view : Env → String → Db → Result IdentityError UserView
unfolding providers_of audit_of
cashier_view env id db = do
  attempt env read_cashier
  u ← or_fail (find_first (is_cashier id) db.users) cashier_not_found
  attempt env query_providers
  attempt env read_audit
  ok (record (view_of db u) { audit = audit_of id db })

-- `return store.CashierView(ctx, id)` after a commit.
abbrev pub then_view :
    Env → String → Result IdentityError (Unit {0}) × Db → Result IdentityError UserView × Db
then_view env id (err e, db) = (err e, db)
then_view env id (ok u, db) = (cashier_view env id db, db)

-- userByIDForUpdate and the check of its role.
abbrev pub lock_cashier : Env → String → Db → Result IdentityError UserRow
lock_cashier env id db = do
  attempt env lock_user
  u ← or_fail (find_user id db) cashier_not_found
  fail_if (not (role_eq u.role role_cashier)) cashier_not_found
  ok u

abbrev pub open_of_user : String → SessionRow → Bool
open_of_user id s = s.user_id =s= id && not (is_set s.revoked_at)

unfoldable pub revoke_managed_sessions : Env → String → String → Time → Db → Result IdentityError Db
revoke_managed_sessions env id reason now db = do
  attempt env revoke_sessions
  ok (record db { sessions = update_where (open_of_user id) (revoked reason now) db.sessions })

unfoldable pub disable_cashier : Env → String → String → Time → Db → Result IdentityError Db
unfolding revoke_managed_sessions add_audit
disable_cashier env actor_id id now db = do
  shut ← revoke_managed_sessions env id "ACCOUNT_DISABLED" now (set_status account_disabled id db)
  attempt env insert_audit
  ok (add_audit env (null_if_empty actor_id) "CASHIER_DISABLED" "USER" id success now shut)

unfoldable pub restore_cashier :
    Env → String → String → AccountStatus → Time → Db → Result IdentityError Db
unfolding add_audit
restore_cashier env actor_id id target now db = do
  attempt env insert_audit
  ok (
      add_audit env (null_if_empty actor_id) "CASHIER_RESTORED" "USER" id success now
        (set_status target id db))

unfoldable pub change_status :
    Env → String → String → AccountStatus → Time → Db → Result IdentityError Db
unfolding disable_cashier restore_cashier
change_status env actor_id id target now db = do
  attempt env update_status
  (if status_eq target account_disabled
      then disable_cashier env actor_id id now db
      else restore_cashier env actor_id id target now db)

unfoldable pub status_body :
    Env
    → String
    → String
    → AccountStatus
    → Time
    → Db
    → Result IdentityError (Result IdentityError (Unit {0}) × Db)
unfolding change_status
status_body env actor_id id target now db = do
  u ← lock_cashier env id db
  after ←
      (if status_eq u.account_status target
        then ok db
        else change_status env actor_id id target now db)
  ok (ok tt, after)

unfoldable pub set_cashier_status :
    Env → String → String → AccountStatus → Time → Db → Result IdentityError UserView × Db
unfolding status_body
set_cashier_status env actor_id id target now db =
    then_view env id (transaction env (status_body env actor_id id target now) db)

-- Replacing a password hash where `which` finds a row.
unfoldable pub replace_hash :
    Env → (IdentityRow → Bool) → IdentityError → String → Db → Result IdentityError Db
replace_hash env which missing hash db = do
  attempt env update_hash
  fail_if (not (has which db.identities)) missing
  ok (record db { identities = update_where which (set_hash hash) db.identities })

unfoldable pub reset_body :
    Env
    → String
    → String
    → String
    → Time
    → Db
    → Result IdentityError (Result IdentityError (Unit {0}) × Db)
unfolding replace_hash revoke_managed_sessions add_audit
reset_body env actor_id id hash now db = do
  u ← lock_cashier env id db
  replaced ← replace_hash env (has_password id) invalid_input hash db
  attempt env require_change
  shut ← revoke_managed_sessions env id "PASSWORD_RESET" now (set_must_change true id replaced)
  attempt env insert_audit
  ok (
    ok tt,
    add_audit env (null_if_empty actor_id) "CASHIER_PASSWORD_RESET" "USER" id success now shut,
  )

unfoldable pub reset_cashier_password :
    Env → String → String → String → Time → Db → Result IdentityError UserView × Db
unfolding reset_body
reset_cashier_password env actor_id id hash now db =
    then_view env id (transaction env (reset_body env actor_id id hash now) db)

abbrev pub has_hash : Option String → String → Bool
has_hash none hash = false
has_hash (some stored) hash = stored =s= hash

abbrev pub open_elsewhere : String → String → SessionRow → Bool
open_elsewhere user_id family_id s =
    s.user_id =s= user_id && not (s.family_id =s= family_id) && not (is_set s.revoked_at)

unfoldable pub change_body :
    Env
    → String
    → String
    → String
    → String
    → Time
    → Db
    → Result IdentityError (Result IdentityError (Unit {0}) × Db)
unfolding replace_hash add_audit
change_body env user_id family_id old_hash new_hash now db = do
  u ← user_by_id_for_update env user_id db
  fail_if (not (is_active u.account_status)) disabled_account
  replaced ←
      replace_hash env (λ i. has_password user_id i && has_hash i.password_hash old_hash)
        invalid_credentials new_hash db
  attempt env require_change
  let cleared = set_must_change false user_id replaced
  attempt env revoke_sessions
  let shut = record cleared {
    sessions =
        update_where (open_elsewhere user_id family_id) (revoked "PASSWORD_CHANGED" now)
          cleared.sessions;
  }
  attempt env insert_audit
  ok (
    ok tt,
    add_audit env (null_if_empty user_id) "PASSWORD_CHANGED" "USER" user_id success now shut,
  )

unfoldable pub change_own_password :
    Env → String → String → String → String → Time → Db → Result IdentityError (Unit {0}) × Db
unfolding change_body
change_own_password env user_id family_id old_hash new_hash now db =
    transaction env (change_body env user_id family_id old_hash new_hash now) db

abbrev pub is_recoverable : String → UserRow → Bool
is_recoverable email u = u.normalized_email =s= email && role_eq u.role role_admin

unfoldable pub recover_body :
    Env → String → String → Time → Db → Result IdentityError (Result IdentityError User × Db)
unfolding replace_hash revoke_managed_sessions add_audit
recover_body env email hash now db = do
  attempt env find_admin
  u ← or_fail (find_first (is_recoverable email) db.users) admin_not_found
  fail_if (not (is_active u.account_status)) disabled_account
  replaced ← replace_hash env (has_password u.id) admin_not_found hash db
  shut ← revoke_managed_sessions env u.id "ADMIN_RECOVERY" now replaced
  attempt env insert_audit
  ok (
    ok (bare_user_of u),
    add_audit env none "ADMIN_PASSWORD_RECOVERED" "USER" u.id success now shut,
  )

unfoldable pub recover_admin_password :
    Env → String → String → Time → Db → Result IdentityError User × Db
unfolding recover_body
recover_admin_password env email hash now db = transaction env (recover_body env email hash now) db
