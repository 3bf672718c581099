-- ===== src/Identity/CashierRegistration.antt =====
-- identity/adapters/postgres/cashier_registration.go: the challenge that verifies a cashier's address.
use b46_ordering_app_backend.Base.{
  ◌+◌, String, Bool, true, false, not, ◌&&◌, ◌||◌, Option, none, some, List, [], ◌∷◌, ◌++◌, Result,
  ok, err, ◌>>=◌, ◌>>◌, fail_if, or_fail, if◌then◌else◌, ltb, leb, ◌=s=◌, find_first, update_where,
}
use b46_ordering_app_backend.Identity.Domain.{
  Time, role_cashier, role_eq, UserView, PendingRegistration, IdentityError, technical,
  invalid_registration, registration_cooldown, email_in_use, find_email, store_pending,
  load_pending, update_code, count_attempt, update_status, update_hash, insert_identity,
  insert_audit, consume_pending, lock_cashier_email, begin_tx, rollback_tx,
}
use b46_ordering_app_backend.Identity.Tables.{
  Db, Env, UserRow, CashierRow, is_set, has, attempt, finish, transaction,
}
use b46_ordering_app_backend.Identity.Sessions.{
  null_if_empty, add_audit, success, has_password, set_hash,
}
use b46_ordering_app_backend.Identity.OAuth.{add_user, add_identity, new_user, find_email_owner}
use b46_ordering_app_backend.Identity.Accounts.{password_identity}
use b46_ordering_app_backend.Identity.Cashiers.{cashier_view, revoke_managed_sessions}
use b46_ordering_app_backend.Identity.Registration.{registration_limits, minute}

-- `err == nil && (role != domain.RoleCashier || verifiedAt != nil)`.
abbrev pub is_taken : Option UserRow → Bool
is_taken none = false
is_taken (some u) = not (role_eq u.role role_cashier) || is_set u.email_verified_at

abbrev pub cashier_row : PendingRegistration → String → Time → CashierRow
cashier_row value actor_id now = record {
  id = value.id;
  actor_user_id = actor_id;
  cashier_user_id = none;
  created = false;
  normalized_email = value.email;
  display_name = value.name;
  password_hash = value.password_hash;
  code_hash = value.code_hash;
  email_rate_key = value.email_rate_key;
  attempt_count = 0;
  created_at = now;
  expires_at = value.expires_at;
  last_sent_at = now;
  consumed_at = none;
}

unfoldable pub put_cashier : CashierRow → List CashierRow → Option (List CashierRow)
put_cashier row rows =
    if has (λ r. r.id =s= row.id && not (r.normalized_email =s= row.normalized_email)) rows
    then none
    else if has (λ r. r.normalized_email =s= row.normalized_email) rows
    then some (update_where (λ r. r.normalized_email =s= row.normalized_email) (λ r. row) rows)
    else some (rows ++ row ∷ [])

unfoldable pub begin_cashier_body :
    Env
    → PendingRegistration
    → String
    → String
    → Time
    → Db
    → Result IdentityError (Result IdentityError (Unit {0}) × Db)
unfolding put_cashier
begin_cashier_body env value actor_id ip_key now db = do
  limited ← registration_limits env value.email_rate_key ip_key now db
  attempt env find_email
  fail_if (is_taken (find_email_owner value.email limited)) email_in_use
  attempt env store_pending
  rows ←
      or_fail (put_cashier (cashier_row value actor_id now) limited.pending_cashiers)
        (technical store_pending)
  ok (ok tt, record limited { pending_cashiers = rows })

unfoldable pub begin_cashier_registration :
    Env → PendingRegistration → String → String → Time → Db → Result IdentityError (Unit {0}) × Db
unfolding begin_cashier_body
begin_cashier_registration env value actor_id ip_key now db =
    transaction env (begin_cashier_body env value actor_id ip_key now) db

-- `WHERE id = $1 AND actor_user_id = $2`.
abbrev pub find_challenge : String → String → Db → Option CashierRow
find_challenge id actor_id db =
    find_first (λ r. r.id =s= id && r.actor_user_id =s= actor_id) db.pending_cashiers

abbrev pub set_challenge : String → (CashierRow → CashierRow) → Db → Db
set_challenge id f db = record db {
  pending_cashiers = update_where (λ r. r.id =s= id) f db.pending_cashiers;
}

abbrev pub code_resent : String → Time → Time → CashierRow → CashierRow
code_resent code_hash expires now r = record r {
  code_hash = code_hash;
  expires_at = expires;
  last_sent_at = now;
  attempt_count = 0;
}

unfoldable pub resend_cashier_body :
    Env
    → String
    → String
    → String
    → String
    → Time
    → Time
    → Db
    → Result IdentityError (Result IdentityError String × Db)
resend_cashier_body env actor_id id code_hash ip_key now expires db = do
  attempt env load_pending
  r ← or_fail (find_challenge id actor_id db) invalid_registration
  fail_if (is_set r.consumed_at || not (ltb now r.expires_at)) invalid_registration
  fail_if (ltb now (r.last_sent_at + minute)) registration_cooldown
  limited ← registration_limits env r.email_rate_key ip_key now db
  attempt env update_code
  ok (ok r.normalized_email, set_challenge id (code_resent code_hash expires now) limited)

unfoldable pub resend_cashier_registration :
    Env → String → String → String → String → Time → Time → Db → Result IdentityError String × Db
unfolding resend_cashier_body
resend_cashier_registration env actor_id id code_hash ip_key now expires db =
    transaction env (resend_cashier_body env actor_id id code_hash ip_key now expires) db

abbrev pub code_tried : CashierRow → CashierRow
code_tried r = record r { attempt_count = r.attempt_count + 1 }

abbrev pub code_used : Time → String → Bool → CashierRow → CashierRow
code_used now cashier_id created r = record r {
  consumed_at = some now;
  cashier_user_id = some cashier_id;
  created = created;
}

-- The id of the cashier and whether the call created it.
abbrev pub Verified : Type 0
Verified = String × Bool

unfoldable pub settle_challenge :
    Env
    → String
    → CashierRow
    → String
    → Bool
    → Time
    → Db
    → Result IdentityError (Result IdentityError Verified × Db)
unfolding add_audit
settle_challenge env actor_id r cashier_id created now db = do
  attempt env insert_audit
  attempt env consume_pending
  ok (
    ok (cashier_id, created),
    set_challenge r.id (code_used now cashier_id created) (
        add_audit env (null_if_empty actor_id) "CASHIER_EMAIL_VERIFIED" "USER" cashier_id success
          now db),
  )

abbrev pub verified_cashier : Env → CashierRow → Time → UserRow
verified_cashier env r now = record (new_user env r.display_name r.normalized_email role_cashier) {
  must_change_password = true;
  email_verified_at = some now;
}

unfoldable pub create_cashier :
    Env
    → String
    → CashierRow
    → Time
    → Db
    → Result IdentityError (Result IdentityError Verified × Db)
unfolding settle_challenge
create_cashier env actor_id r now db = do
  let u = verified_cashier env r now
  created ← add_user env email_in_use u db
  named ←
      add_identity env (technical insert_identity)
        (password_identity u.id r.normalized_email r.password_hash) created
  settle_challenge env actor_id r u.id true now named

abbrev pub reverified : CashierRow → Time → UserRow → UserRow
reverified r now u = record u {
  name = r.display_name;
  must_change_password = true;
  email_verified_at = some now;
}

-- The account of the earlier flow: its name and password are replaced, and its sessions end.
unfoldable pub adopt_cashier :
    Env
    → String
    → CashierRow
    → UserRow
    → Time
    → Db
    → Result IdentityError (Result IdentityError Verified × Db)
unfolding settle_challenge
adopt_cashier env actor_id r u now db = do
  attempt env update_status
  let named = record db { users = update_where (λ x. x.id =s= u.id) (reverified r now) db.users }
  attempt env update_hash
  let hashed = record named {
    identities = update_where (has_password u.id) (set_hash r.password_hash) named.identities;
  }
  shut ← revoke_managed_sessions env u.id "EMAIL_VERIFIED_LOGIN_RESET" now hashed
  settle_challenge env actor_id r u.id false now shut

unfoldable pub accept_challenge :
    Env
    → String
    → CashierRow
    → Time
    → Db
    → Option UserRow
    → Result IdentityError (Result IdentityError Verified × Db)
unfolding create_cashier adopt_cashier
accept_challenge env actor_id r now db none = create_cashier env actor_id r now db
accept_challenge env actor_id r now db (some u) = do
  fail_if (is_taken (some u)) email_in_use
  adopt_cashier env actor_id r u now db

unfoldable pub refuse_challenge :
    Env → String → Db → Result IdentityError (Result IdentityError Verified × Db)
refuse_challenge env id db = do
  attempt env count_attempt
  ok (err invalid_registration, set_challenge id code_tried db)

unfoldable pub resolve_challenge :
    Env
    → String
    → CashierRow
    → Time
    → Db
    → Result IdentityError (Result IdentityError Verified × Db)
unfolding accept_challenge
resolve_challenge env actor_id r now db = do
  attempt env lock_cashier_email
  attempt env find_email
  accept_challenge env actor_id r now db (find_email_owner r.normalized_email db)

unfoldable pub challenge_body :
    Env
    → String
    → CashierRow
    → String
    → Time
    → Db
    → Result IdentityError (Result IdentityError Verified × Db)
unfolding refuse_challenge resolve_challenge
challenge_body env actor_id r code_hash now db = do
  fail_if (is_set r.consumed_at || not (ltb now r.expires_at) || leb 5 r.attempt_count)
      invalid_registration
  (if not (r.code_hash =s= code_hash)
      then refuse_challenge env r.id db
      else resolve_challenge env actor_id r now db)

-- The cashier of a challenge that was verified with this code before.
abbrev pub replayed_cashier : CashierRow → String → Option String
replayed_cashier r code_hash =
    if is_set r.consumed_at && r.code_hash =s= code_hash then r.cashier_user_id else none

abbrev pub created_view : Env → Db → Verified → Result IdentityError UserView
created_view env db v = cashier_view env v.0 db >>= λ view. ok (record view { created = v.1 })

abbrev pub view_verified :
    Env → Result IdentityError Verified × Db → Result IdentityError UserView × Db
view_verified env (err e, db) = (err e, db)
view_verified env (ok v, db) = (created_view env db v, db)

unfoldable pub verify_loaded :
    Env
    → String
    → CashierRow
    → String
    → Time
    → Db
    → Option String
    → Result IdentityError UserView × Db
unfolding challenge_body finish
verify_loaded env actor_id r code_hash now db (some cashier_id) =
    if env.fails rollback_tx
    then (err (technical rollback_tx), db)
    else (created_view env db (cashier_id, r.created), db)
verify_loaded env actor_id r code_hash now db none =
    view_verified env (finish env db (challenge_body env actor_id r code_hash now db))

abbrev pub load_challenge : Env → String → String → Db → Result IdentityError CashierRow
load_challenge env actor_id id db = do
  attempt env begin_tx
  attempt env load_pending
  or_fail (find_challenge id actor_id db) invalid_registration

unfoldable pub verify_challenge :
    Env
    → String
    → String
    → Time
    → Db
    → Result IdentityError CashierRow
    → Result IdentityError UserView × Db
unfolding verify_loaded
verify_challenge env actor_id code_hash now db (err e) = (err e, db)
verify_challenge env actor_id code_hash now db (ok r) =
    verify_loaded env actor_id r code_hash now db (replayed_cashier r code_hash)

unfoldable pub verify_cashier_registration :
    Env → String → String → String → Time → Db → Result IdentityError UserView × Db
unfolding verify_challenge
verify_cashier_registration env actor_id id code_hash now db =
    verify_challenge env actor_id code_hash now db (load_challenge env actor_id id db)
