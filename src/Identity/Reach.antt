-- ===== src/Identity/Reach.antt =====
-- The sessions that calls of the identity store reach, one after another.
use b46_ordering_app_backend.Base.{◌≡◌, String, sym, subst}
use b46_ordering_app_backend.Identity.Domain.{Time, AccountStatus, NewSession, VerifiedIdentity}
use b46_ordering_app_backend.Identity.Tables.{Db, Env}
use b46_ordering_app_backend.Identity.Sessions.{
  create_session, authenticate_access, rotate_refresh, revoke_family_call,
}
use b46_ordering_app_backend.Identity.Sessions.Keeps.{
  DrawsFamily, create_session-IsKept, authenticate_access-IsKept, rotate_refresh-IsKept,
  revoke_family_call-IsKept,
}
use b46_ordering_app_backend.Identity.OAuth.{complete_oauth_login}
use b46_ordering_app_backend.Identity.Accounts.{disable_user}
use b46_ordering_app_backend.Identity.Cashiers.{
  set_cashier_status, reset_cashier_password, change_own_password, recover_admin_password,
}
use b46_ordering_app_backend.Identity.Ended.{
  Kept, disable_user-Kept, set_cashier_status-Kept, reset_cashier_password-Kept,
  change_own_password-Kept, recover_admin_password-Kept,
}
use b46_ordering_app_backend.Identity.OAuth.Keeps.{complete_oauth_login-Kept}

-- One call that reads or changes sessions, with its environment, leads from tables to tables. A session
-- that starts a family is given none, as makeSession does, and draws a new uuid.
pub data Calls : Db → Db → Type 0 where
  creates :
      {db after : Db} (env : Env) (value : NewSession)
      → value.family_id ≡ ""
      → DrawsFamily env db
      → after ≡ (create_session env value db).1
      → Calls db after
  authenticates :
      {db after : Db} (env : Env) (hash : String) (now : Time)
      → after ≡ (authenticate_access env hash now db).1
      → Calls db after
  rotates :
      {db after : Db} (env : Env) (token : String) (value : NewSession) (now : Time)
      → after ≡ (rotate_refresh env token value now db).1
      → Calls db after
  revokes :
      {db after : Db} (env : Env) (family reason : String) (now : Time)
      → after ≡ (revoke_family_call env family reason now db).1
      → Calls db after
  logs_in :
      {db after : Db} (env : Env) (id : String) (verified : VerifiedIdentity) (session : NewSession)
      (now : Time)
      → session.family_id ≡ ""
      → DrawsFamily env db
      → after ≡ (complete_oauth_login env id verified session now db).1
      → Calls db after
  disables :
      {db after : Db} (env : Env) (actor_id user_id : String) (now : Time)
      → after ≡ (disable_user env actor_id user_id now db).1
      → Calls db after
  sets_status :
      {db after : Db} (env : Env) (actor_id id : String) (target : AccountStatus) (now : Time)
      → after ≡ (set_cashier_status env actor_id id target now db).1
      → Calls db after
  resets :
      {db after : Db} (env : Env) (actor_id id hash : String) (now : Time)
      → after ≡ (reset_cashier_password env actor_id id hash now db).1
      → Calls db after
  changes_password :
      {db after : Db} (env : Env) (user_id family_id old_hash new_hash : String) (now : Time)
      → after ≡ (change_own_password env user_id family_id old_hash new_hash now db).1
      → Calls db after
  recovers :
      {db after : Db} (env : Env) (email hash : String) (now : Time)
      → after ≡ (recover_admin_password env email hash now db).1
      → Calls db after

pub data Reaches : Db → Db → Type 0 where
  stays : {start after : Db} → after ≡ start → Reaches start after
  goes_on : {start db after : Db} → Reaches start db → Calls db after → Reaches start after

Calls-Kept : {db after : Db} → Calls db after → Kept db → Kept after
Calls-Kept {db} (creates env value blank draws same) k =
    subst Kept (sym same) (create_session-IsKept env value db blank draws k)
Calls-Kept {db} (authenticates env hash now same) k =
    subst Kept (sym same) (authenticate_access-IsKept env hash now db k)
Calls-Kept {db} (rotates env token value now same) k =
    subst Kept (sym same) (rotate_refresh-IsKept env token value now db k)
Calls-Kept {db} (revokes env family reason now same) k =
    subst Kept (sym same) (revoke_family_call-IsKept env family reason now db k)
Calls-Kept {db} (logs_in env id verified session now blank draws same) k =
    subst Kept (sym same) (complete_oauth_login-Kept env id verified session now db blank draws k)
Calls-Kept {db} (disables env actor_id user_id now same) k =
    subst Kept (sym same) (disable_user-Kept env actor_id user_id now db k)
Calls-Kept {db} (sets_status env actor_id id target now same) k =
    subst Kept (sym same) (set_cashier_status-Kept env actor_id id target now db k)
Calls-Kept {db} (resets env actor_id id hash now same) k =
    subst Kept (sym same) (reset_cashier_password-Kept env actor_id id hash now db k)
Calls-Kept {db} (changes_password env user_id family_id old_hash new_hash now same) k =
    subst Kept (sym same)
      (change_own_password-Kept env user_id family_id old_hash new_hash now db k)
Calls-Kept {db} (recovers env email hash now same) k =
    subst Kept (sym same) (recover_admin_password-Kept env email hash now db k)

-- In whatever order these calls are made and whatever fails in them, session ids and token hashes stay
-- unique, no family has two sessions that are not revoked, and a session whose refresh token is
-- consumed is revoked.
pub Reaches-Kept : {start after : Db} → Reaches start after → Kept start → Kept after
Reaches-Kept (stays same) k = subst Kept (sym same) k
Reaches-Kept (goes_on before call) k = Calls-Kept call (Reaches-Kept before k)
