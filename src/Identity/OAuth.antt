-- ===== src/Identity/OAuth.antt =====
-- The OAuth calls of identity/adapters/postgres/store.go: intents, logging in and linking.
pub mod Added
pub mod Once
pub mod Keeps
use b46_ordering_app_backend.Base.{
  String, Bool, true, false, not, ◌&&◌, ◌||◌, Option, none, some, List, [], ◌∷◌, ◌++◌, Result, ok,
  err, ◌>>=◌, ◌>>◌, fail_if, or_fail, if◌then◌else◌, ltb, ◌=s=◌, find_first, update_where,
}
use b46_ordering_app_backend.Base.Keys.{find_key}
use b46_ordering_app_backend.Identity.Domain.{
  Time, Role, role_customer, Provider, provider_eq, is_active, account_active, OAuthIntent,
  oauth_login, oauth_link, purpose_eq, VerifiedIdentity, User, NewSession, IdentityError, technical,
  invalid_oauth_intent, identity_link_required, identity_linked, disabled_account, insert_intent,
  query_intent, find_subject, find_email, insert_user, insert_identity, consume_intent,
  insert_audit,
}
use b46_ordering_app_backend.Identity.Tables.{
  Db, Env, UserRow, IdentityRow, IntentRow, is_set, coalesce, greatest, has, attempt, transaction,
}
use b46_ordering_app_backend.Identity.Sessions.{
  user_of, null_if_empty, find_user, user_by_id_for_update, insert_session, add_audit, success,
}

abbrev pub intent_row : Env → OAuthIntent → IntentRow
intent_row env value = record {
  id = env.new_id insert_intent;
  provider = value.provider;
  purpose = value.purpose;
  bound_user_id = null_if_empty value.bound_user_id;
  nonce_hash = value.nonce_hash;
  expires_at = value.expires_at;
  consumed_at = none;
  created_at = env.now;
}

unfoldable pub create_oauth_intent : Env → OAuthIntent → Db → Result IdentityError OAuthIntent × Db
create_oauth_intent env value db =
    let added = record db { intents = db.intents ++ intent_row env value ∷ [] } in
    if env.fails insert_intent
    then (err (technical insert_intent), if env.applied then added else db)
    else if is_set (find_key IntentRow.id (env.new_id insert_intent) db.intents)
    then (err (technical insert_intent), db)
    else (ok (record value { id = env.new_id insert_intent }), added)

-- `WHERE id = $1 AND consumed_at IS NULL AND expires_at > $2`.
abbrev pub is_usable : String → Time → IntentRow → Bool
is_usable id now i = i.id =s= id && not (is_set i.consumed_at) && ltb now i.expires_at

abbrev pub intent_of : IntentRow → OAuthIntent
intent_of i = record {
  id = i.id;
  provider = i.provider;
  purpose = i.purpose;
  bound_user_id = coalesce i.bound_user_id "";
  nonce_hash = i.nonce_hash;
  expires_at = i.expires_at;
}

abbrev pub find_oauth_intent : Env → String → Time → Db → Result IdentityError OAuthIntent
find_oauth_intent env id now db = do
  attempt env query_intent
  i ← or_fail (find_first (is_usable id now) db.intents) invalid_oauth_intent
  ok (intent_of i)

-- lockIntent, whose callers answer invalid_oauth_intent to any of its errors.
unfoldable pub lock_intent : Env → String → Time → Db → Result IdentityError OAuthIntent
lock_intent env id now db = do
  fail_if (env.fails query_intent) invalid_oauth_intent
  i ← or_fail (find_first (is_usable id now) db.intents) invalid_oauth_intent
  ok (intent_of i)

abbrev pub is_unconsumed : String → IntentRow → Bool
is_unconsumed id i = i.id =s= id && not (is_set i.consumed_at)

abbrev pub consumed : Time → IntentRow → IntentRow
consumed now i = record i { consumed_at = some (greatest now i.created_at) }

unfoldable pub consume_oauth_intent : Env → String → Time → Db → Result IdentityError Db
consume_oauth_intent env id now db = do
  attempt env consume_intent
  fail_if (not (has (is_unconsumed id) db.intents)) invalid_oauth_intent
  ok (record db { intents = update_where (is_unconsumed id) (consumed now) db.intents })

-- userByProviderSubject.
abbrev pub subject_owner : Provider → String → Db → Option UserRow
subject_owner provider subject db =
    elim (find_first (λ i. provider_eq i.provider provider && i.provider_subject =s= subject)
      db.identities) [ none ↦ none | some i ↦ find_user i.user_id db ]

abbrev pub find_email_owner : String → Db → Option UserRow
find_email_owner email db = find_key UserRow.normalized_email email db.users

-- Inserting into `users`: its id and address are unique. `taken` is the answer to a violation.
unfoldable pub add_user : Env → IdentityError → UserRow → Db → Result IdentityError Db
add_user env taken row db = do
  attempt env insert_user
  fail_if (is_set (find_user row.id db) || is_set (find_email_owner row.normalized_email db)) taken
  ok (record db { users = db.users ++ row ∷ [] })

abbrev pub identity_taken : IdentityRow → List IdentityRow → Bool
identity_taken row rows =
    has
      (λ i.
        provider_eq i.provider row.provider
        && (i.provider_subject =s= row.provider_subject || i.user_id =s= row.user_id))
      rows

-- Inserting into `login_identities`: a provider's subject is unique, and so is a user's provider.
unfoldable pub add_identity : Env → IdentityError → IdentityRow → Db → Result IdentityError Db
add_identity env taken row db = do
  attempt env insert_identity
  fail_if (identity_taken row db.identities) taken
  ok (record db { identities = db.identities ++ row ∷ [] })

abbrev pub new_user : Env → String → String → Role → UserRow
new_user env name email role = record {
  id = env.new_id insert_user;
  name = name;
  normalized_email = email;
  role = role;
  account_status = account_active;
  must_change_password = false;
  email_verified_at = none;
}

abbrev pub identity_of : String → VerifiedIdentity → IdentityRow
identity_of user_id verified = record {
  user_id = user_id;
  provider = verified.provider;
  provider_subject = verified.subject;
  password_hash = none;
}

-- The end of CompleteOAuthLogin, once the user is known.
unfoldable pub open_oauth_session :
    Env
    → String
    → User
    → NewSession
    → Time
    → Db
    → Result IdentityError (Result IdentityError User × Db)
unfolding consume_oauth_intent
open_oauth_session env intent_id user session now db = do
  fail_if (not (is_active user.status)) disabled_account
  opened ← insert_session env (record session { user_id = user.id }) db
  after ← consume_oauth_intent env intent_id now opened
  ok (ok user, after)

unfoldable pub require_link :
    Env → String → Time → Db → Result IdentityError (Result IdentityError User × Db)
unfolding consume_oauth_intent
require_link env intent_id now db = do
  after ← consume_oauth_intent env intent_id now db
  ok (err identity_link_required, after)

unfoldable pub create_oauth_customer :
    Env
    → String
    → VerifiedIdentity
    → NewSession
    → Time
    → Db
    → Result IdentityError (Result IdentityError User × Db)
unfolding add_user add_identity open_oauth_session
create_oauth_customer env intent_id verified session now db = do
  let u = new_user env verified.suggested_name verified.email role_customer
  created ← add_user env (technical insert_user) u db
  linked ← add_identity env identity_linked (identity_of u.id verified) created
  open_oauth_session env intent_id (user_of u) session now linked

-- An identity that no account has: another account may own its address.
unfoldable pub login_new :
    Env
    → String
    → VerifiedIdentity
    → NewSession
    → Time
    → Db
    → Bool
    → Result IdentityError (Result IdentityError User × Db)
unfolding require_link create_oauth_customer
login_new env intent_id verified session now db true = require_link env intent_id now db
login_new env intent_id verified session now db false =
    create_oauth_customer env intent_id verified session now db

unfoldable pub login_as :
    Env
    → String
    → VerifiedIdentity
    → NewSession
    → Time
    → Db
    → Option UserRow
    → Result IdentityError (Result IdentityError User × Db)
unfolding open_oauth_session login_new
login_as env intent_id verified session now db (some u) =
    open_oauth_session env intent_id (user_of u) session now db
login_as env intent_id verified session now db none = do
  attempt env find_email
  login_new env intent_id verified session now db (is_set (find_email_owner verified.email db))

unfoldable pub complete_login_body :
    Env
    → String
    → VerifiedIdentity
    → NewSession
    → Time
    → Db
    → Result IdentityError (Result IdentityError User × Db)
unfolding lock_intent login_as
complete_login_body env intent_id verified session now db = do
  intent ← lock_intent env intent_id now db
  fail_if
      (not (purpose_eq intent.purpose oauth_login)
        || not (provider_eq intent.provider verified.provider))
      invalid_oauth_intent
  attempt env find_subject
  login_as env intent_id verified session now db
      (subject_owner verified.provider verified.subject db)

unfoldable pub complete_oauth_login :
    Env → String → VerifiedIdentity → NewSession → Time → Db → Result IdentityError User × Db
unfolding complete_login_body
complete_oauth_login env intent_id verified session now db =
    transaction env (complete_login_body env intent_id verified session now) db

unfoldable pub complete_link_body :
    Env
    → String
    → String
    → VerifiedIdentity
    → Time
    → Db
    → Result IdentityError (Result IdentityError (Unit {0}) × Db)
unfolding lock_intent add_identity consume_oauth_intent add_audit
complete_link_body env intent_id user_id verified now db = do
  intent ← lock_intent env intent_id now db
  fail_if
      (not (purpose_eq intent.purpose oauth_link)
        || not (intent.bound_user_id =s= user_id)
        || not (provider_eq intent.provider verified.provider))
      invalid_oauth_intent
  u ← user_by_id_for_update env user_id db
  fail_if (not (is_active u.account_status)) disabled_account
  linked ← add_identity env identity_linked (identity_of user_id verified) db
  after ← consume_oauth_intent env intent_id now linked
  attempt env insert_audit
  ok (
    ok tt,
    add_audit env (null_if_empty user_id) "OAUTH_IDENTITY_LINKED" "USER" user_id success now after,
  )

unfoldable pub complete_oauth_link :
    Env → String → String → VerifiedIdentity → Time → Db → Result IdentityError (Unit {0}) × Db
unfolding complete_link_body
complete_oauth_link env intent_id user_id verified now db =
    transaction env (complete_link_body env intent_id user_id verified now) db
