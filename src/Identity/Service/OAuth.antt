-- ===== src/Identity/Service/OAuth.antt =====
-- services/ordering/internal/identity/application/service.go: BeginOAuthLogin, BeginOAuthLink,
-- OAuthLogin and LinkOAuth.
pub mod Verified
use Prim.Native.Char.{Char}
use b46_ordering_app_backend.Base.{
  ℕ, ◌+◌, String, Bool, true, false, not, ◌&&◌, ◌||◌, Option, none, some, Result, ok, err, fail_if,
  or_fail, if◌then◌else◌, ltb, leb, ◌=s=◌, trim_space,
}
use b46_ordering_app_backend.Identity.Domain.{
  Time, Role, role_admin, role_eq, status_eq, account_disabled, is_active, Provider,
  provider_google, provider_eq, is_oauth, OAuthPurpose, oauth_login, oauth_link, purpose_eq,
  OAuthIntent, VerifiedIdentity, User, UserView, Principal, PasswordRecord, NewSession,
  SessionTokens, Step, IdentityError, technical, wrapped, invalid_input, invalid_credentials,
  unauthenticated, forbidden, disabled_account, refresh_reuse, invalid_oauth_intent,
  invalid_oauth_token, password_change_required, query_password, lock_refresh, query_access,
  revoke_family, insert_intent, hash_password, verify_password, new_token, create_session,
  upgrade_hash, normalize_email, validate_password, display_name,
}
use b46_ordering_app_backend.Identity.Tables.{Db, Env}
use b46_ordering_app_backend.Identity.Sessions
use b46_ordering_app_backend.Identity.OAuth.{
  create_oauth_intent, find_oauth_intent, complete_oauth_login, complete_oauth_link,
}
use b46_ordering_app_backend.Identity.Accounts.{user_view, bootstrap_admin, disable_user}
use b46_ordering_app_backend.Identity.Cashiers.{recover_admin_password}
use b46_ordering_app_backend.Identity.Service.{
  World, Call, ◌>>=◌, ◌>>◌, proceed, give, reading, translated, on_error, is_blank, session_with,
  make_session, with_user,
}

pub record OAuthStart : Type 0 where
  pub intent_id : String
  pub provider : Provider
  pub nonce : String
  pub expires_at : Time

unfoldable pub begin_oauth : World → Provider → OAuthPurpose → String → Call OAuthStart
begin_oauth w provider purpose bound_user_id = do
  give (fail_if (not (provider_eq provider provider_google)) invalid_input)
  nonce ← give (or_fail (w.token 0) (technical new_token))
  intent ← on_error (wrapped insert_intent) (
      create_oauth_intent (w.store 0) (record {
        id = "";
        provider = provider;
        purpose = purpose;
        bound_user_id = bound_user_id;
        nonce_hash = w.hash_token nonce;
        expires_at = w.clock 0 + w.oauth_intent_lifetime;
      }))
  give (
      ok (record {
        intent_id = intent.id;
        provider = provider;
        nonce = nonce;
        expires_at = intent.expires_at;
      }))

unfoldable pub begin_oauth_login : World → Provider → Call OAuthStart
unfolding begin_oauth
begin_oauth_login w provider = begin_oauth w provider oauth_login ""

unfoldable pub begin_oauth_link : World → Principal → Provider → Call OAuthStart
unfolding begin_oauth
begin_oauth_link w principal provider = do
  give (fail_if principal.must_change_password password_change_required)
  begin_oauth w provider oauth_link principal.user_id

unfoldable pub normalize_verified_identity :
    World → VerifiedIdentity → Result IdentityError VerifiedIdentity
normalize_verified_identity w value =
    if not (is_oauth value.provider) || is_blank value.subject
    then err invalid_oauth_token
    else elim (normalize_email w.lower value.email) [
      | err e ↦ err invalid_oauth_token
      | ok normalized ↦ ok (record value {
        email = normalized;
        suggested_name = display_name value.suggested_name normalized;
      })
    ]

abbrev pub as_error : IdentityError → IdentityError → IdentityError
as_error e other = e

unfoldable pub verified_identity :
    World → OAuthIntent → String → Result IdentityError VerifiedIdentity
unfolding normalize_verified_identity
verified_identity w intent provider_token =
    elim (w.oauth_verify intent.provider provider_token intent.nonce_hash) [
      | none ↦ err invalid_oauth_token
      | some value ↦ normalize_verified_identity w value
    ]

unfoldable pub oauth_login_call : World → String → String → Call SessionTokens
unfolding verified_identity make_session
oauth_login_call w intent_id provider_token = do
  intent ←
      on_error (as_error invalid_oauth_intent)
        (reading (find_oauth_intent (w.store 0) intent_id (w.clock 1)))
  give (
      fail_if
        (not (purpose_eq intent.purpose oauth_login)
          || not (provider_eq intent.provider provider_google))
        invalid_oauth_intent)
  verified ← give (verified_identity w intent provider_token)
  give (fail_if (not verified.email_verified) invalid_oauth_token)
  made ← give (make_session w "")
  user ← complete_oauth_login (w.store 1) intent.id verified made.1 (w.clock 2)
  give (ok (with_user made.0 user))

unfoldable pub link_oauth : World → Principal → String → String → Call (Unit {0})
unfolding verified_identity
link_oauth w principal intent_id provider_token = do
  give (fail_if principal.must_change_password password_change_required)
  intent ←
      on_error (as_error invalid_oauth_intent)
        (reading (find_oauth_intent (w.store 0) intent_id (w.clock 0)))
  give (
      fail_if
        (not (purpose_eq intent.purpose oauth_link)
          || not (provider_eq intent.provider provider_google)
          || not (intent.bound_user_id =s= principal.user_id))
        invalid_oauth_intent)
  verified ← give (verified_identity w intent provider_token)
  complete_oauth_link (w.store 1) intent.id principal.user_id verified (w.clock 1)
