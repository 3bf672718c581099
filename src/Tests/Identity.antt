-- ===== src/Tests/Identity.antt =====
-- Accounts, sessions and registrations on concrete tables, and the theorems about them applied there.
pub mod Accounts
pub mod Codes
pub mod OAuth
use Prim.Native.Char.{Char, code}
use b46_ordering_app_backend.Base.{
  ℕ, ◌≡◌, ◌≢◌, ◌↔◌, refl, String, Bool, true, false, Option, none, some, List, [], ◌∷◌, ◌++◌,
  Result, ok, err, ◌=s=◌, trim_space, map_runes, rune_count, find_first, keep, update_where,
  is_space, All,
}
use b46_ordering_app_backend.Base.Keys.{apart}
use b46_ordering_app_backend.Identity.Domain.{
  Time, Role, role_customer, role_cashier, role_admin, account_active, account_disabled,
  provider_password, provider_google, oauth_login, VerifiedIdentity, User, Principal, NewSession,
  PasswordRecord, SessionTokens, PendingRegistration, Step, IdentityError, refresh_reuse,
  normalize_email, insert_user, is_active,
}
use b46_ordering_app_backend.Identity.Tables.{
  Db, Env, UserRow, SessionRow, PendingRow, finish, transaction,
}
use b46_ordering_app_backend.Identity.Transaction.{Works}
use b46_ordering_app_backend.Identity.Sessions
use b46_ordering_app_backend.Identity.Sessions.Invariant.{IsKept}
use b46_ordering_app_backend.Identity.Ended.{Kept}
use b46_ordering_app_backend.Identity.Reach.{
  Reaches, stays, goes_on, rotates, authenticates, Reaches-Kept,
}
use b46_ordering_app_backend.Identity.Sessions.Replay.{live_in, rotate_refresh-twice}

-- No step fails, and every uuid that is drawn is the given text.
abbrev pub drawing : String → Env
drawing id = record { fails = λ s. false; applied = true; now = 10; new_id = λ s. id }

pub works : (id : String) → Works (drawing id)
works id s = refl

abbrev pub ana_row : UserRow
ana_row = record {
  id = "u1";
  name = "Ana";
  normalized_email = "ana@b46.ph";
  role = role_customer;
  account_status = account_active;
  must_change_password = false;
  email_verified_at = none;
}

abbrev pub ana : User
ana = record {
  id = "u1";
  name = "Ana";
  normalized_email = "ana@b46.ph";
  role = role_customer;
  status = account_active;
  must_change_password = false;
}

abbrev pub ana_session : SessionRow
ana_session = record {
  id = "s1";
  user_id = "u1";
  family_id = "f1";
  parent_session_id = none;
  access_token_hash = "a1";
  refresh_token_hash = "r1";
  access_expires_at = 50;
  refresh_expires_at = 500;
  created_at = 5;
  refresh_consumed_at = none;
  revoked_at = none;
  revoked_reason = none;
  replaced_by_session_id = none;
  last_seen_at = none;
}

abbrev pub start : Db
start = record {
  users = ana_row ∷ [];
  identities =
      record {
        user_id = "u1";
        provider = provider_password;
        provider_subject = "ana@b46.ph";
        password_hash = some "secret12";
      }
      ∷ [];
  sessions = ana_session ∷ [];
  intents = [];
  pending = [];
  pending_cashiers = [];
  buckets = [];
  audit = [];
}

abbrev pub tokens_of : String → String → NewSession
tokens_of access token = record {
  user_id = "";
  family_id = "";
  parent_session_id = "";
  access_token_hash = access;
  refresh_token_hash = token;
  access_expires_at = 90;
  refresh_expires_at = 600;
}

start-IsKept : IsKept start.sessions
unfolding keep
start-IsKept = record {
  ids = (tt, tt);
  access = (tt, tt);
  refresh = (tt, tt);
  single = (tt, tt);
  spent = ((λ e. cc), tt);
  named = (apart {a = "f1"} {b = ""} refl, tt);
}

abbrev pub rotated_once : Db
rotated_once = (Sessions.rotate_refresh (drawing "s2") "r1" (tokens_of "a2" "r2") 20 start).1

Reaches-Kept_example : Kept (Sessions.authenticate_access (drawing "x1") "a2" 30 rotated_once).1
Reaches-Kept_example =
    Reaches-Kept
      (goes_on (goes_on (stays refl) (rotates (drawing "s2") "r1" (tokens_of "a2" "r2") 20 refl))
        (authenticates (drawing "x1") "a2" 30 refl))
      start-IsKept

first_rotation :
    (Sessions.rotate_refresh (drawing "s2") "r1" (tokens_of "a2" "r2") 20 start).0 ≡ ok ana
unfolding Sessions.rotate_refresh transaction finish Sessions.rotate_body Sessions.rotate_session
    find_first
first_rotation = refl

rotate_refresh-twice_example :
    (s : SessionRow) × (find_first (λ r. r.refresh_token_hash =s= "r1") start.sessions ≡ some s)
    × ((Sessions.rotate_refresh
          (drawing "s3")
          "r1"
          (tokens_of "a3" "r3")
          30
          (Sessions.rotate_refresh (drawing "s2") "r1" (tokens_of "a2" "r2") 20 start).1).0
        ≡ err refresh_reuse)
    × (live_in s.family_id
          (Sessions.rotate_refresh
            (drawing "s3")
            "r1"
            (tokens_of "a3" "r3")
            30
            (Sessions.rotate_refresh (drawing "s2") "r1" (tokens_of "a2" "r2") 20 start).1).1
        ≡ [])
rotate_refresh-twice_example =
    rotate_refresh-twice (drawing "s2") (drawing "s3") "r1" (tokens_of "a2" "r2")
      (tokens_of "a3" "r3") 20 30 start ana first_rotation (works "s3")
