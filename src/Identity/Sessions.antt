-- ===== src/Identity/Sessions.antt =====
-- The session calls of identity/adapters/postgres/store.go: password records, sessions, and the
-- rotation and revocation of refresh families.
pub mod Invariant
pub mod Keeps
pub mod Replay
pub mod Opened
use b46_ordering_app_backend.Base.{
  ℕ, String, Bool, true, false, not, ◌&&◌, ◌||◌, Option, none, some, List, [], ◌∷◌, ◌++◌, Result,
  ok, err, ◌>>=◌, ◌>>◌, fail_if, or_fail, if◌then◌else◌, ltb, ◌=s=◌, find_first, update_where,
}
use b46_ordering_app_backend.Base.Keys.{find_key}
use b46_ordering_app_backend.Identity.Domain.{
  Time, role_cashier, role_eq, provider_password, provider_eq, is_active, User, Principal,
  PasswordRecord, NewSession, Step, IdentityError, technical, invalid_credentials, unauthenticated,
  disabled_account, refresh_reuse, query_password, update_hash, lock_user, query_access,
  touch_session, lock_refresh, add_session, draw_family, consume_session, revoke_family,
  insert_audit,
}
use b46_ordering_app_backend.Identity.Tables.{
  Db, Env, UserRow, IdentityRow, SessionRow, is_set, coalesce, greatest, has, attempt, transaction,
  statement,
}

abbrev pub user_of : UserRow → User
user_of u = record {
  id = u.id;
  name = u.name;
  normalized_email = u.normalized_email;
  role = u.role;
  status = u.account_status;
  must_change_password = u.must_change_password;
}

abbrev pub null_if_empty : String → Option String
null_if_empty s = if s =s= "" then none else some s

abbrev pub success : Option String
success = some "success"

-- insertAudit, and the audit row of RevokeFamily, which has no details.
unfoldable pub add_audit :
    Env → Option String → String → String → String → Option String → Time → Db → Db
add_audit env actor action target_type target outcome now db = record db {
  audit =
      db.audit
      ++ record {
        id = env.new_id insert_audit;
        actor_user_id = actor;
        action = action;
        target_type = target_type;
        target_id = target;
        outcome = outcome;
        occurred_at = now;
      }
        ∷ [];
}

-- `u.role <> 'CASHIER' OR u.email_verified_at IS NOT NULL`.
abbrev pub may_sign_in : UserRow → Bool
may_sign_in u = not (role_eq u.role role_cashier) || is_set u.email_verified_at

abbrev pub find_user : String → Db → Option UserRow
find_user id db = find_key UserRow.id id db.users

-- userByIDForUpdate.
abbrev pub user_by_id_for_update : Env → String → Db → Result IdentityError UserRow
user_by_id_for_update env id db = attempt env lock_user >> or_fail (find_user id db) unauthenticated

abbrev pub is_identity : String → IdentityRow → Bool
is_identity subject i = provider_eq i.provider provider_password && i.provider_subject =s= subject

abbrev pub is_owner : String → UserRow → Bool
is_owner id u = u.id =s= id && may_sign_in u

abbrev pub find_password : Env → String → Db → Result IdentityError PasswordRecord
find_password env email db = do
  attempt env query_password
  i ← or_fail (find_first (is_identity email) db.identities) invalid_credentials
  u ← or_fail (find_first (is_owner i.user_id) db.users) invalid_credentials
  hash ← or_fail i.password_hash (technical query_password)
  ok (record { user = user_of u; password_hash = hash })

abbrev pub has_password : String → IdentityRow → Bool
has_password user_id i = i.user_id =s= user_id && provider_eq i.provider provider_password

abbrev pub set_hash : String → IdentityRow → IdentityRow
set_hash encoded i = record i { password_hash = some encoded }

-- At most one row has a user and a provider, so one row is affected when there is one.
unfoldable pub update_password_hash :
    Env → String → String → Db → Result IdentityError (Unit {0}) × Db
update_password_hash env user_id encoded db =
    let write = record db {
      identities = update_where (has_password user_id) (set_hash encoded) db.identities;
    } in
    if env.fails update_hash
    then (err (technical update_hash), if env.applied then write else db)
    else if has (has_password user_id) db.identities
    then (ok tt, write)
    else (err invalid_credentials, db)

-- The row of insertSession; an empty family id draws a new family.
abbrev pub session_row : Env → NewSession → SessionRow
session_row env value = record {
  id = env.new_id add_session;
  user_id = value.user_id;
  family_id = if value.family_id =s= "" then env.new_id draw_family else value.family_id;
  parent_session_id = null_if_empty value.parent_session_id;
  access_token_hash = value.access_token_hash;
  refresh_token_hash = value.refresh_token_hash;
  access_expires_at = value.access_expires_at;
  refresh_expires_at = value.refresh_expires_at;
  created_at = env.now;
  refresh_consumed_at = none;
  revoked_at = none;
  revoked_reason = none;
  replaced_by_session_id = none;
  last_seen_at = none;
}

-- The primary key of `sessions` and its two unique token hashes.
abbrev pub session_taken : SessionRow → List SessionRow → Bool
session_taken new rows =
    is_set (find_key SessionRow.id new.id rows)
    || is_set (find_key SessionRow.access_token_hash new.access_token_hash rows)
    || is_set (find_key SessionRow.refresh_token_hash new.refresh_token_hash rows)

unfoldable pub insert_session : Env → NewSession → Db → Result IdentityError Db
insert_session env value db = do
  attempt env add_session
  u ← or_fail (find_first (is_owner value.user_id) db.users) unauthenticated
  fail_if (session_taken (session_row env value) db.sessions) (technical add_session)
  ok (record db { sessions = db.sessions ++ session_row env value ∷ [] })

unfoldable pub create_session_body :
    Env → NewSession → Db → Result IdentityError (Result IdentityError User × Db)
create_session_body env value db = do
  u ← user_by_id_for_update env value.user_id db
  fail_if (not (is_active u.account_status)) disabled_account
  after ← insert_session env value db
  ok (ok (user_of u), after)

unfoldable pub create_session : Env → NewSession → Db → Result IdentityError User × Db
unfolding create_session_body
create_session env value db = transaction env (create_session_body env value) db

-- The rows that AuthenticateAccess asks for.
abbrev pub is_open : String → Time → SessionRow → Bool
is_open hash now s =
    s.access_token_hash =s= hash && ltb now s.access_expires_at && not (is_set s.revoked_at)

abbrev pub principal_of : SessionRow → UserRow → Principal
principal_of s u = record {
  user_id = u.id;
  role = u.role;
  status = u.account_status;
  family_id = s.family_id;
  must_change_password = u.must_change_password;
}

unfoldable pub read_access : Env → String → Time → Db → Result IdentityError Principal
read_access env hash now db = do
  attempt env query_access
  s ← or_fail (find_first (is_open hash now) db.sessions) unauthenticated
  u ← or_fail (find_first (is_owner s.user_id) db.users) unauthenticated
  fail_if (not (is_active u.account_status)) disabled_account
  ok (principal_of s u)

abbrev pub touch : String → Time → Db → Db
touch hash now db = record db {
  sessions =
      update_where (λ s. s.access_token_hash =s= hash) (λ s. record s { last_seen_at = some now })
        db.sessions;
}

abbrev pub touched : Env → String → Time → Db → Result IdentityError Principal → Db
touched env hash now db (err e) = db
touched env hash now db (ok p) = (statement env touch_session (touch hash now) db).1

unfoldable pub authenticate_access : Env → String → Time → Db → Result IdentityError Principal × Db
unfolding read_access
authenticate_access env hash now db =
    (read_access env hash now db, touched env hash now db (read_access env hash now db))

abbrev pub revoked : String → Time → SessionRow → SessionRow
revoked reason now s = record s {
  revoked_at = some (coalesce s.revoked_at (greatest now s.created_at));
  revoked_reason = some (coalesce s.revoked_reason reason);
}

abbrev pub in_family : String → SessionRow → Bool
in_family family s = s.family_id =s= family

unfoldable pub revoke_family_rows : String → String → Time → Db → Db
revoke_family_rows family reason now db = record db {
  sessions = update_where (in_family family) (revoked reason now) db.sessions;
}

abbrev pub audit_revoked : Env → String → Time → Db → Option SessionRow → Db
audit_revoked env family now db none = db
audit_revoked env family now db (some s) =
    add_audit env (some s.user_id) "SESSION_FAMILY_REVOKED" "SESSION_FAMILY" family none now db

-- RevokeFamily, one statement.
unfoldable pub revoke_family_call :
    Env → String → String → Time → Db → Result IdentityError (Unit {0}) × Db
unfolding revoke_family_rows add_audit
revoke_family_call env family reason now db =
    statement env revoke_family
      (λ d.
        audit_revoked env family now (revoke_family_rows family reason now d)
          (find_first (in_family family) d.sessions))
      db

-- A consumed token is presented again: the family ends.
unfoldable pub after_replay : Env → SessionRow → UserRow → Time → Db → Db
unfolding add_audit revoke_family_rows
after_replay env s u now db =
    add_audit env (null_if_empty u.id) "SESSION_REFRESH_REUSE_DETECTED" "SESSION_FAMILY" s.family_id
      success now (revoke_family_rows s.family_id "REFRESH_REUSE" now db)

unfoldable pub replay_detected :
    Env → SessionRow → UserRow → Time → Db → Result IdentityError (Result IdentityError User × Db)
unfolding after_replay
replay_detected env s u now db = do
  attempt env revoke_family
  attempt env insert_audit
  ok (err refresh_reuse, after_replay env s u now db)

abbrev pub successor : SessionRow → UserRow → NewSession → NewSession
successor s u replacement = record replacement {
  user_id = u.id;
  family_id = s.family_id;
  parent_session_id = s.id;
}

abbrev pub rotated : Time → String → SessionRow → SessionRow
rotated now replacement_id s = record s {
  refresh_consumed_at = some (greatest now s.created_at);
  revoked_at = some (greatest now s.created_at);
  revoked_reason = some "ROTATED";
  replaced_by_session_id = some replacement_id;
}

abbrev pub consume : Env → SessionRow → Time → Db → Db
consume env s now db = record db {
  sessions = update_where (λ r. r.id =s= s.id) (rotated now (env.new_id add_session)) db.sessions;
}

unfoldable pub replace_session :
    Env
    → SessionRow
    → UserRow
    → NewSession
    → Time
    → Db
    → Result IdentityError (Result IdentityError User × Db)
unfolding insert_session
replace_session env s u replacement now db = do
  fail_if (is_set s.revoked_at || not (ltb now s.refresh_expires_at)) unauthenticated
  fail_if (not (is_active u.account_status)) disabled_account
  after ← insert_session env (successor s u replacement) db
  attempt env consume_session
  ok (ok (user_of u), consume env s now after)

unfoldable pub rotate_session :
    Env
    → SessionRow
    → UserRow
    → NewSession
    → Time
    → Db
    → Result IdentityError (Result IdentityError User × Db)
unfolding replay_detected replace_session
rotate_session env s u replacement now db =
    if is_set s.refresh_consumed_at
    then replay_detected env s u now db
    else replace_session env s u replacement now db

unfoldable pub rotate_body :
    Env → String → NewSession → Time → Db → Result IdentityError (Result IdentityError User × Db)
unfolding rotate_session
rotate_body env presented replacement now db = do
  attempt env lock_refresh
  s ← or_fail (find_key SessionRow.refresh_token_hash presented db.sessions) unauthenticated
  u ← or_fail (find_user s.user_id db) unauthenticated
  rotate_session env s u replacement now db

unfoldable pub rotate_refresh :
    Env → String → NewSession → Time → Db → Result IdentityError User × Db
unfolding rotate_body
rotate_refresh env presented replacement now db =
    transaction env (rotate_body env presented replacement now) db
