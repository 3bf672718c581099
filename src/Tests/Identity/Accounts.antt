-- ===== src/Tests/Identity/Accounts.antt =====
-- Logging in and out, disabled and unverified accounts, and administrators.
use b46_ordering_app_backend.Base.{
  ◌≡◌, ◌≢◌, ◌↔◌, refl, String, Bool, true, false, none, some, [], ◌∷◌, ok, ◌=s=◌, ◌==◌,
  if◌then◌else◌, trim_space, map_runes, rune_count, find_first, update_where,
}
use b46_ordering_app_backend.Base.Keys.{apart}
use b46_ordering_app_backend.Identity.Domain.{
  Role, role_customer, role_cashier, role_admin, account_active, provider_password, provider_google,
  oauth_login, VerifiedIdentity, User, Principal, PasswordRecord, SessionTokens, normalize_email,
  is_active,
}
use b46_ordering_app_backend.Identity.Domain.Email.{normalize_email-again}
use b46_ordering_app_backend.Identity.Tables.{Db, UserRow, transaction}
use b46_ordering_app_backend.Identity.Sessions
use b46_ordering_app_backend.Identity.Sessions.Opened.{principal_in, unverified_cashier-refused}
use b46_ordering_app_backend.Identity.Sessions.Replay.{live_in}
use b46_ordering_app_backend.Identity.Accounts.{disable_user, bootstrap_admin, bare_user_of}
use b46_ordering_app_backend.Identity.Accounts.Disabled.{live_of, disable_user-shuts}
use b46_ordering_app_backend.Identity.Accounts.Bootstrap.{bootstrap_admin-again}
use b46_ordering_app_backend.Identity.Service.{
  World, password_login, authenticate, logout, authorize,
}
use b46_ordering_app_backend.Identity.Service.Authorize.{authorize_iff}
use b46_ordering_app_backend.Identity.Service.Login.{password_login-authenticates}
use b46_ordering_app_backend.Identity.Service.Logout.{logout-ends}
use b46_ordering_app_backend.Tests.Identity.{
  drawing, works, ana_row, ana, ana_session, start, tokens_of,
}

abbrev in_session : Principal
in_session = principal_in "f1" ana

abbrev admin_row : UserRow
admin_row = record {
  id = "u0";
  name = "Root";
  normalized_email = "root@b46.ph";
  role = role_admin;
  account_status = account_active;
  must_change_password = false;
  email_verified_at = none;
}

abbrev with_admin : Db
with_admin = record start {
  users = admin_row ∷ ana_row ∷ [];
  sessions =
      record ana_session {
        id = "s0";
        user_id = "u0";
        family_id = "f0";
        access_token_hash = "a0";
        refresh_token_hash = "r0";
      }
      ∷ ana_session
      ∷ [];
}

abbrev admin : Principal
admin = record {
  user_id = "u0";
  role = role_admin;
  status = account_active;
  family_id = "f0";
  must_change_password = false;
}

disabled : (disable_user (drawing "x1") "u0" "u1" 20 with_admin).0 ≡ ok tt
unfolding disable_user transaction find_first
disabled = refl

admin_enters :
    (Sessions.authenticate_access
      (drawing "x2")
      "a0"
      30
      (disable_user (drawing "x1") "u0" "u1" 20 with_admin).1).0
    ≡ ok admin
unfolding disable_user Sessions.authenticate_access find_first transaction update_where
admin_enters = refl

disable_user-shuts_example :
    (live_of "u1" (disable_user (drawing "x1") "u0" "u1" 20 with_admin).1 ≡ [])
    × ((Sessions.authenticate_access
          (drawing "x2")
          "a1"
          30
          (disable_user (drawing "x1") "u0" "u1" 20 with_admin).1).0
        ≢ ok (record in_session { user_id = "u1" }))
    × ((Sessions.create_session
          (drawing "x2")
          (record (tokens_of "a9" "r9") { user_id = "u1" })
          (disable_user (drawing "x1") "u0" "u1" 20 with_admin).1).0
        ≢ ok ana)
disable_user-shuts_example =
    disable_user-shuts (drawing "x1") (drawing "x2") "u0" "u1" "a1" 20 30 (tokens_of "a9" "r9")
      with_admin in_session ana disabled

abbrev cashier_row : UserRow
cashier_row = record ana_row {
  id = "u2";
  name = "Ben";
  normalized_email = "ben@b46.ph";
  role = role_cashier;
}

abbrev with_cashier : Db
with_cashier = record start { users = ana_row ∷ cashier_row ∷ [] }

cashier_here : Sessions.find_user "u2" with_cashier ≡ some cashier_row
unfolding find_first
cashier_here = refl

unverified_cashier-refused_example :
    ((Sessions.authenticate_access (drawing "x1") "a1" 20 with_cashier).0
      ≢ ok (record in_session { user_id = cashier_row.id }))
    × (Sessions.find_password (drawing "x1") "ben@b46.ph" with_cashier
        ≢ ok (record { user = record ana { id = cashier_row.id }; password_hash = "secret12" }))
    × ((Sessions.create_session
          (drawing "x1")
          (record (tokens_of "a9" "r9") { user_id = "u2" })
          with_cashier).0
        ≢ ok ana)
unverified_cashier-refused_example =
    unverified_cashier-refused (drawing "x1") "a1" "ben@b46.ph" 20 (tokens_of "a9" "r9")
      with_cashier cashier_row in_session (record { user = ana; password_hash = "secret12" }) ana
      ((apart {a = "u2"} {b = "u1"} refl, tt), (tt, tt)) cashier_here refl refl

-- A world whose digests are the texts themselves.
abbrev pub plain : World
plain = record {
  access_token_lifetime = 30;
  refresh_token_lifetime = 100;
  oauth_intent_lifetime = 10;
  hash = λ p. some p;
  verify = λ p h. some (p =s= h, false);
  token = λ k. if k == 0 then some "access" else some "refresh";
  clock = λ k. 20;
  store = λ k. drawing "w1";
  hash_token = λ t. t;
  oauth_verify = λ p t n. none;
  lower = λ c. c;
  parses_uuid = λ id. true;
  new_code = some "123456";
  mailer_configured = true;
  digest = λ t. t;
}

abbrev later_plain : World
later_plain = record plain { clock = λ k. 40 }

abbrev ana_tokens : SessionTokens
ana_tokens = record {
  access_token = "access";
  access_token_expires_at = 50;
  refresh_token = "refresh";
  refresh_token_expires_at = 120;
  user = some ana;
}

logged_in : (password_login plain " ana@b46.ph" "secret12" start).0 ≡ ok ana_tokens
unfolding password_login normalize_email map_runes trim_space
    b46_ordering_app_backend.Identity.Domain.contains_char rune_count
    b46_ordering_app_backend.Identity.Domain.validate_password find_first Sessions.create_session
    transaction Sessions.insert_session
logged_in = refl

password_login-authenticates_example :
    (normalized : String) × (found : PasswordRecord) × (needs : Bool) × (user : User)
    × (family : String) × (normalize_email (λ c. c) " ana@b46.ph" ≡ ok normalized)
    × (Sessions.find_password (drawing "w1") normalized start ≡ ok found)
    × (plain.verify "secret12" found.password_hash ≡ some (true, needs))
    × (user.id ≡ found.user.id)
    × (ana_tokens.user ≡ some user)
    × ((authenticate later_plain "access" (password_login plain " ana@b46.ph" "secret12" start).1).0
        ≡ ok (principal_in family user))
password_login-authenticates_example =
    password_login-authenticates plain later_plain " ana@b46.ph" "secret12" start ana_tokens
      (tt, tt) logged_in (works "w1") refl (unfold trim_space in refl) refl

enters : (authenticate (record plain { clock = λ k. 20 }) "a1" with_admin).0 ≡ ok in_session
unfolding authenticate trim_space Sessions.authenticate_access find_first
enters = refl

logout-ends_example :
    ((logout plain "a1" with_admin).0 ≡ ok tt)
    × (live_in "f1" (logout plain "a1" with_admin).1 ≡ [])
    × ((Sessions.authenticate_access (drawing "x2") "a1" 30 (logout plain "a1" with_admin).1).0
        ≢ ok (record in_session { family_id = "f1" }))
logout-ends_example =
    logout-ends plain (drawing "x2") "a1" "a1" 30 with_admin in_session in_session enters
      (works "w1")

authorize_iff_example : (authorize admin role_admin ≡ ok tt) ↔ (
    (is_active admin.status ≡ true)
    × (admin.must_change_password ≡ false)
    × (admin.role ≡ role_admin))
authorize_iff_example = authorize_iff admin role_admin

normal : normalize_email (λ c. c) " ana@b46.ph " ≡ ok "ana@b46.ph"
unfolding normalize_email map_runes trim_space
    b46_ordering_app_backend.Identity.Domain.contains_char rune_count
normal = refl

normalize_email-again_example : normalize_email (λ c. c) "ana@b46.ph" ≡ ok "ana@b46.ph"
normalize_email-again_example =
    normalize_email-again (λ c. c) " ana@b46.ph " "ana@b46.ph" (λ c. refl) (λ c. refl) normal

abbrev root_user : User
root_user = bare_user_of (record admin_row { id = "b1" })

bootstrapped : (bootstrap_admin (drawing "b1") "Root" "root@b46.ph" "h1" 20 start).0 ≡ ok root_user
unfolding bootstrap_admin transaction find_first
bootstrapped = refl

bootstrap_admin-again_example :
    bootstrap_admin
      (drawing "b2")
      "Other"
      "root@b46.ph"
      "h2"
      30
      (bootstrap_admin (drawing "b1") "Root" "root@b46.ph" "h1" 20 start).1
    ≡ (ok root_user, (bootstrap_admin (drawing "b1") "Root" "root@b46.ph" "h1" 20 start).1)
bootstrap_admin-again_example =
    bootstrap_admin-again (drawing "b1") (drawing "b2") "Root" "Other" "root@b46.ph" "h1" "h2" 20 30
      start root_user bootstrapped (works "b2")
