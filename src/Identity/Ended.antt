-- ===== src/Identity/Ended.antt =====
-- The calls that end sessions keep the table of sessions sound.
use b46_ordering_app_backend.Base.{
  ◌≡◌, inl, inr, refl, sym, ap, subst, String, Bool, true, not, ◌&&◌, Result, ok, err, bind_ok,
  ok-injective, or_fail, fail_if, Bool-cases, find_first, update_where,
}
use b46_ordering_app_backend.Identity.Domain.{
  Time, AccountStatus, account_disabled, status_eq, is_active, IdentityError, disabled_account,
  invalid_input, invalid_credentials, admin_not_found, find_admin, insert_audit, update_status,
  update_hash, require_change, revoke_sessions, disable_account,
}
use b46_ordering_app_backend.Identity.Tables.{
  Db, Env, IdentityRow, SessionRow, is_set, has, attempt, transaction,
}
use b46_ordering_app_backend.Identity.Transaction.{transaction_cases}
use b46_ordering_app_backend.Identity.Sessions.{
  add_audit, revoked, find_user, user_by_id_for_update, has_password,
}
use b46_ordering_app_backend.Identity.Sessions.Invariant.{IsKept, update-IsKept, revoked-Ends}
use b46_ordering_app_backend.Identity.Accounts.{
  disable_body, disable_user, of_user, set_status, set_must_change,
}
use b46_ordering_app_backend.Identity.Cashiers.{
  then_view, lock_cashier, disable_cashier, restore_cashier, change_status, status_body,
  set_cashier_status, replace_hash, revoke_managed_sessions, reset_body, reset_cashier_password,
  has_hash, change_body, change_own_password, open_elsewhere, open_of_user, recover_body,
  recover_admin_password, is_recoverable,
}

abbrev pub Kept : Db → Type 0
Kept db = IsKept db.sessions

-- A transaction keeps what its body keeps.
pub transaction-Kept {ℓ} :
    {A : Type ℓ} (env : Env) (body : Db → Result IdentityError (Result IdentityError A × Db))
    (db : Db)
    → Kept db
    → ((answer : Result IdentityError A) (after : Db) → body db ≡ ok (answer, after) → Kept after)
    → Kept (transaction env body db).1
transaction-Kept env body db k keeps = elim (transaction_cases env body db) [
  | inl same ↦ subst Kept (sym same) k
  | inr (answer, after, done, end) ↦ subst Kept (sym end) (keeps answer after done)
]

then_view_tables :
    (env : Env) (id : String) (r : Result IdentityError (Unit {0}) × Db)
    → (then_view env id r).1 ≡ r.1
then_view_tables env id (ok u, db) = refl
then_view_tables env id (err e, db) = refl

revoked-Kept :
    (p : SessionRow → Bool) (reason : String) (now : Time) (db : Db)
    → Kept db
    → IsKept (update_where p (revoked reason now) db.sessions)
revoked-Kept p reason now db k =
    update-IsKept p (revoked reason now) db.sessions (revoked-Ends reason now) k

managed-Kept :
    (env : Env) (id reason : String) (now : Time) (db : Db) {after : Db}
    → Kept db
    → revoke_managed_sessions env id reason now db ≡ ok after
    → Kept after
unfolding revoke_managed_sessions
managed-Kept env id reason now db k h =
    bind_ok (attempt env revoke_sessions) h
      λ u e h1. subst Kept (ok-injective h1) (revoked-Kept (open_of_user id) reason now db k)

hash-Kept :
    (env : Env) (which : IdentityRow → Bool) (missing : IdentityError) (hash : String) (db : Db)
    {after : Db}
    → Kept db
    → replace_hash env which missing hash db ≡ ok after
    → Kept after
unfolding replace_hash
hash-Kept env which missing hash db k h = bind_ok (attempt env update_hash) h λ u1 e1 h1.
    bind_ok (fail_if (not (has which db.identities)) missing) h1
      λ u2 e2 h2. subst Kept (ok-injective h2) k

pub disable_user-Kept :
    (env : Env) (actor_id user_id : String) (now : Time) (db : Db)
    → Kept db
    → Kept (disable_user env actor_id user_id now db).1
unfolding disable_user disable_body add_audit
disable_user-Kept env actor_id user_id now db k =
    transaction-Kept env (disable_body env actor_id user_id now) db k λ answer after h.
      bind_ok (attempt env disable_account) h λ u1 e1 h1.
        bind_ok (fail_if (not (is_set (find_user user_id db))) invalid_input) h1 λ u2 e2 h2.
          bind_ok (attempt env revoke_sessions) h2 λ u3 e3 h3.
            bind_ok (attempt env insert_audit) h3 λ u4 e4 h4.
              subst Kept (ap (λ p. p.1) (ok-injective h4))
                (revoked-Kept (of_user user_id) "ACCOUNT_DISABLED" now db k)

disable_cashier-Kept :
    (env : Env) (actor_id id : String) (now : Time) (db : Db) {after : Db}
    → Kept db
    → disable_cashier env actor_id id now db ≡ ok after
    → Kept after
unfolding disable_cashier add_audit
disable_cashier-Kept env actor_id id now db k h =
    let disabled = set_status account_disabled id db in
    bind_ok (revoke_managed_sessions env id "ACCOUNT_DISABLED" now disabled) h λ shut e1 h1.
      bind_ok (attempt env insert_audit) h1 λ u2 e2 h2.
        subst Kept (ok-injective h2) (managed-Kept env id "ACCOUNT_DISABLED" now disabled k e1)

restore_cashier-Kept :
    (env : Env) (actor_id id : String) (target : AccountStatus) (now : Time) (db : Db) {after : Db}
    → Kept db
    → restore_cashier env actor_id id target now db ≡ ok after
    → Kept after
unfolding restore_cashier add_audit
restore_cashier-Kept env actor_id id target now db k h =
    bind_ok (attempt env insert_audit) h λ u2 e2 h2. subst Kept (ok-injective h2) k

change_status-Kept :
    (env : Env) (actor_id id : String) (target : AccountStatus) (now : Time) (db : Db) {after : Db}
    → Kept db
    → change_status env actor_id id target now db ≡ ok after
    → Kept after
unfolding change_status
change_status-Kept env actor_id id target now db k h =
    bind_ok (attempt env update_status) h λ u e h1.
      elim (Bool-cases (status_eq target account_disabled)) [
        | inl t ↦ disable_cashier-Kept env actor_id id now db k (rw t at h1)
        | inr t ↦ restore_cashier-Kept env actor_id id target now db k (rw t at h1)
      ]

pub set_cashier_status-Kept :
    (env : Env) (actor_id id : String) (target : AccountStatus) (now : Time) (db : Db)
    → Kept db
    → Kept (set_cashier_status env actor_id id target now db).1
unfolding set_cashier_status status_body
set_cashier_status-Kept env actor_id id target now db k =
    let run = transaction env (status_body env actor_id id target now) db in
    subst Kept (sym (then_view_tables env id run)) (
      transaction-Kept env (status_body env actor_id id target now) db k λ answer after h.
        bind_ok (lock_cashier env id db) h λ u e h1.
          elim (Bool-cases (status_eq u.account_status target)) [
            | inl same ↦
                let kept = ok-injective (rw same at h1) in subst Kept (ap (λ p. p.1) kept) k
            | inr other ↦
                bind_ok (change_status env actor_id id target now db) (rw other at h1) λ last e2 h2.
                  subst Kept (ap (λ p. p.1) (ok-injective h2))
                    (change_status-Kept env actor_id id target now db k e2)
          ])

pub reset_cashier_password-Kept :
    (env : Env) (actor_id id hash : String) (now : Time) (db : Db)
    → Kept db
    → Kept (reset_cashier_password env actor_id id hash now db).1
unfolding reset_cashier_password reset_body add_audit
reset_cashier_password-Kept env actor_id id hash now db k =
    let run = transaction env (reset_body env actor_id id hash now) db in
    subst Kept (sym (then_view_tables env id run)) (
      transaction-Kept env (reset_body env actor_id id hash now) db k λ answer after h.
        bind_ok (lock_cashier env id db) h λ u e h1.
          bind_ok (replace_hash env (has_password id) invalid_input hash db) h1 λ replaced e2 h2.
            bind_ok (attempt env require_change) h2 λ u3 e3 h3.
              let forced = set_must_change true id replaced in
              bind_ok (revoke_managed_sessions env id "PASSWORD_RESET" now forced) h3 λ shut e4 h4.
                bind_ok (attempt env insert_audit) h4 λ u5 e5 h5.
                  subst Kept (ap (λ p. p.1) (ok-injective h5)) (
                    managed-Kept env id "PASSWORD_RESET" now forced
                      (hash-Kept env (has_password id) invalid_input hash db k e2) e4))

pub change_own_password-Kept :
    (env : Env) (user_id family_id old_hash new_hash : String) (now : Time) (db : Db)
    → Kept db
    → Kept (change_own_password env user_id family_id old_hash new_hash now db).1
unfolding change_own_password change_body add_audit
change_own_password-Kept env user_id family_id old_hash new_hash now db k =
    let which : IdentityRow → Bool =
      λ i. has_password user_id i && has_hash i.password_hash old_hash in
    transaction-Kept env (change_body env user_id family_id old_hash new_hash now) db k
      λ answer after h. bind_ok (user_by_id_for_update env user_id db) h λ u e h1.
        bind_ok (fail_if (not (is_active u.account_status)) disabled_account) h1 λ u2 e2 h2.
          bind_ok (replace_hash env which invalid_credentials new_hash db) h2 λ replaced e3 h3.
            bind_ok (attempt env require_change) h3 λ u4 e4 h4.
              bind_ok (attempt env revoke_sessions) h4 λ u5 e5 h5.
                bind_ok (attempt env insert_audit) h5 λ u6 e6 h6.
                  subst Kept (ap (λ p. p.1) (ok-injective h6)) (
                    revoked-Kept (open_elsewhere user_id family_id) "PASSWORD_CHANGED" now replaced
                      (hash-Kept env which invalid_credentials new_hash db k e3))

pub recover_admin_password-Kept :
    (env : Env) (email hash : String) (now : Time) (db : Db)
    → Kept db
    → Kept (recover_admin_password env email hash now db).1
unfolding recover_admin_password recover_body add_audit
recover_admin_password-Kept env email hash now db k =
    transaction-Kept env (recover_body env email hash now) db k λ answer after h.
      bind_ok (attempt env find_admin) h λ u0 e0 h0.
        bind_ok (or_fail (find_first (is_recoverable email) db.users) admin_not_found) h0 λ u e h1.
          bind_ok (fail_if (not (is_active u.account_status)) disabled_account) h1 λ u2 e2 h2.
            bind_ok (replace_hash env (has_password u.id) admin_not_found hash db) h2
              λ replaced e3 h3.
                bind_ok (revoke_managed_sessions env u.id "ADMIN_RECOVERY" now replaced) h3
                  λ shut e4 h4. bind_ok (attempt env insert_audit) h4 λ u5 e5 h5.
                    subst Kept (ap (λ p. p.1) (ok-injective h5)) (
                      managed-Kept env u.id "ADMIN_RECOVERY" now replaced
                        (hash-Kept env (has_password u.id) admin_not_found hash db k e3) e4)
