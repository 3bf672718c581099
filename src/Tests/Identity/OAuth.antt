-- ===== src/Tests/Identity/OAuth.antt =====
-- OAuth intents.
use b46_ordering_app_backend.Base.{
  ◌&&◌, ◌≡◌, refl, true, false, none, some, [], ◌∷◌, ok, ◌=s=◌, if◌then◌else◌, trim_space,
  map_runes, rune_count, find_first,
}
use b46_ordering_app_backend.Identity.Domain.{
  Role, role_customer, role_cashier, role_admin, account_active, provider_password, provider_google,
  oauth_login, VerifiedIdentity, User, Principal, PasswordRecord, SessionTokens, normalize_email,
  is_active,
}
use b46_ordering_app_backend.Identity.Tables.{Db, transaction}
use b46_ordering_app_backend.Identity.Sessions
use b46_ordering_app_backend.Identity.OAuth.{complete_oauth_login, complete_oauth_link}
use b46_ordering_app_backend.Identity.OAuth.Once.{complete_oauth_login-once}
use b46_ordering_app_backend.Identity.Service.{World}
use b46_ordering_app_backend.Tests.Identity.{drawing, start, tokens_of}
use b46_ordering_app_backend.Tests.Identity.Accounts.{plain}
use b46_ordering_app_backend.Identity.Tables.{IntentRow}
use b46_ordering_app_backend.Identity.OAuth.{is_usable}
use b46_ordering_app_backend.Identity.Domain.{purpose_eq}
use b46_ordering_app_backend.Identity.Service.OAuth.{oauth_login_call}
use b46_ordering_app_backend.Identity.Service.OAuth.Verified.{oauth_login_call-verifies}

abbrev with_intent : Db
with_intent = record start {
  intents =
      record {
        id = "i1";
        provider = provider_google;
        purpose = oauth_login;
        bound_user_id = none;
        nonce_hash = "n1";
        expires_at = 60;
        consumed_at = none;
        created_at = 5;
      }
      ∷ [];
}

abbrev carla : VerifiedIdentity
carla = record {
  provider = provider_google;
  subject = "google-7";
  email = "carla@b46.ph";
  email_verified = true;
  suggested_name = "Carla";
}

abbrev carla_user : User
carla_user = record {
  id = "o1";
  name = "Carla";
  normalized_email = "carla@b46.ph";
  role = role_customer;
  status = account_active;
  must_change_password = false;
}

oauth_done :
    (complete_oauth_login (drawing "o1") "i1" carla (tokens_of "a5" "r5") 20 with_intent).0
    ≡ ok carla_user
unfolding complete_oauth_login transaction find_first Sessions.insert_session
oauth_done = refl

complete_oauth_login-once_example :
    ((complete_oauth_login
        (drawing "o2")
        "i1"
        carla
        (tokens_of "a6" "r6")
        30
        (complete_oauth_login (drawing "o1") "i1" carla (tokens_of "a5" "r5") 20 with_intent).1).1
      ≡ (complete_oauth_login (drawing "o1") "i1" carla (tokens_of "a5" "r5") 20 with_intent).1)
    × ((complete_oauth_link
          (drawing "o2")
          "i1"
          "u1"
          carla
          30
          (complete_oauth_login (drawing "o1") "i1" carla (tokens_of "a5" "r5") 20 with_intent).1).1
        ≡ (complete_oauth_login (drawing "o1") "i1" carla (tokens_of "a5" "r5") 20 with_intent).1)
complete_oauth_login-once_example =
    complete_oauth_login-once (drawing "o1") (drawing "o2") "i1" "u1" carla carla
      (tokens_of "a5" "r5") (tokens_of "a6" "r6") 20 30 with_intent carla_user oauth_done

abbrev google : World
google = record plain {
  oauth_verify = λ p t n. if t =s= "jwt" && n =s= "n1" then some carla else none;
}

abbrev carla_tokens : SessionTokens
carla_tokens = record {
  access_token = "access";
  access_token_expires_at = 50;
  refresh_token = "refresh";
  refresh_token_expires_at = 120;
  user = some (record carla_user { id = "w1" });
}

google_accepts : (oauth_login_call google "i1" "jwt" with_intent).0 ≡ ok carla_tokens
unfolding oauth_login_call find_first trim_space normalize_email map_runes
    b46_ordering_app_backend.Identity.Domain.contains_char rune_count complete_oauth_login
    transaction Sessions.insert_session b46_ordering_app_backend.Identity.Domain.display_name
google_accepts = refl

oauth_login_call-verifies_example :
    (i : IntentRow) × (value : VerifiedIdentity) × (find_first
        (is_usable "i1" 20)
        with_intent.intents
      ≡ some i)
    × (purpose_eq i.purpose oauth_login ≡ true)
    × (google.oauth_verify i.provider "jwt" i.nonce_hash ≡ some value)
    × (value.email_verified ≡ true)
oauth_login_call-verifies_example =
    oauth_login_call-verifies google "i1" "jwt" with_intent carla_tokens google_accepts
