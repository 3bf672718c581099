-- ===== src/Identity/Service/OAuth/Verified.antt =====
-- What a login by an OAuth account rests on.
use b46_ordering_app_backend.Base.{
  ◌≡◌, inl, inr, ap, String, true, not, ◌||◌, some, Result, ok, err, bind_ok, ok-injective, or_fail,
  fail_if, passed, find_first, arith, Bool-cases, Result-cases, Option-cases, sym, ◌∙◌, got, ℕ,
}
use b46_ordering_app_backend.Identity.Domain.{
  VerifiedIdentity, OAuthIntent, SessionTokens, purpose_eq, oauth_login, normalize_email, is_oauth,
  provider_eq, provider_google, invalid_oauth_token, invalid_oauth_intent, query_intent,
  IdentityError,
}
use b46_ordering_app_backend.Identity.Tables.{Db, Env, IntentRow, attempt}
use b46_ordering_app_backend.Identity.OAuth.{is_usable, intent_of, find_oauth_intent}
use b46_ordering_app_backend.Identity.Service.{World, is_blank, translated}
use b46_ordering_app_backend.Identity.Service.Outcomes.{proceed_ok, translated_ok}
use b46_ordering_app_backend.Identity.Service.OAuth.{
  as_error, verified_identity, normalize_verified_identity, oauth_login_call,
}

-- Normalizing keeps whether the address is verified.
normalized_flag :
    (w : World) (value : VerifiedIdentity) {verified : VerifiedIdentity}
    → normalize_verified_identity w value ≡ ok verified
    → verified.email_verified ≡ value.email_verified
unfolding normalize_verified_identity
normalized_flag w value h =
    elim (Bool-cases (not (is_oauth value.provider) || is_blank value.subject)) [
      | inl bad ↦ absurd (ground (arith, bad, h))
      | inr good ↦ elim (Result-cases (normalize_email w.lower value.email)) [
        | inl (email, e) ↦
            let same = ok-injective (rw (good, e) at h) in
            ap VerifiedIdentity.email_verified (sym same)
        | inr (e, refused) ↦ absurd (case_refused (rw (good, refused) at h))
      ]
    ]
  where
    case_refused :
        {v : VerifiedIdentity}
        → ◌≡◌ {A = Result IdentityError VerifiedIdentity} (err invalid_oauth_token) (ok v)
        → ⊥
    case_refused h = cc

from_verifier :
    (w : World) (intent : OAuthIntent) (provider_token : String) {verified : VerifiedIdentity}
    → verified_identity w intent provider_token ≡ ok verified
    → (value : VerifiedIdentity) × (w.oauth_verify intent.provider provider_token intent.nonce_hash
        ≡ some value)
      × (verified.email_verified ≡ value.email_verified)
unfolding verified_identity
from_verifier w intent provider_token h =
    elim (Option-cases (w.oauth_verify intent.provider provider_token intent.nonce_hash)) [
      | inl e ↦ absurd (ground (arith, e, h))
      | inr (value, e) ↦ (value, e, normalized_flag w value (rw (e, verified_identity) at h))
    ]

intent_found :
    (env : Env) (id : String) (now : ℕ) (db : Db) {intent : OAuthIntent}
    → find_oauth_intent env id now db ≡ ok intent
    → (i : IntentRow) × (find_first (is_usable id now) db.intents ≡ some i) × (intent_of i ≡ intent)
intent_found env id now db h = bind_ok (attempt env query_intent) h λ u e h1.
    bind_ok (or_fail (find_first (is_usable id now) db.intents) invalid_oauth_intent) h1
      λ i e2 h2. (i, got _ _ e2, ok-injective h2)

-- A login by an OAuth account answers with tokens only when the table holds an unconsumed and
-- unexpired intent of that id, made for a login, and the verifier accepted the token for the provider
-- and the nonce of this intent, with a verified address.
pub oauth_login_call-verifies :
    (w : World) (intent_id provider_token : String) (db : Db) (tokens : SessionTokens)
    → (oauth_login_call w intent_id provider_token db).0 ≡ ok tokens
    → (i : IntentRow) × (value : VerifiedIdentity) × (find_first
          (is_usable intent_id (w.clock 1))
          db.intents
        ≡ some i)
      × (purpose_eq i.purpose oauth_login ≡ true)
      × (w.oauth_verify i.provider provider_token i.nonce_hash ≡ some value)
      × (value.email_verified ≡ true)
unfolding oauth_login_call
oauth_login_call-verifies w intent_id provider_token db tokens h =
    let find = find_oauth_intent (w.store 0) intent_id (w.clock 1) db in
    proceed_ok (translated (as_error invalid_oauth_intent) (find, db)) h λ intent d1 read h1 t1.
      let wrong =
        not (purpose_eq intent.purpose oauth_login)
        || not (provider_eq intent.provider provider_google) in
      proceed_ok (fail_if wrong invalid_oauth_intent, d1) h1
        λ u2 d2 e2 h2 t2.
          proceed_ok (verified_identity w intent provider_token, d2) h2
            λ verified d3 e3 h3 t3.
              proceed_ok (fail_if (not verified.email_verified) invalid_oauth_token, d3) h3
                λ u4 d4 e4 h4 t4.
                  let found = translated_ok (as_error invalid_oauth_intent) (find, db) read in
                  let (i, named, same) =
                    intent_found (w.store 0) intent_id (w.clock 1) db (ap (λ p. p.0) found) in
                  let (value, accepted, flag) =
                    from_verifier w intent provider_token (ap (λ p. p.0) e3) in
                  let right = passed wrong invalid_oauth_intent (ap (λ p. p.0) e2) in
                  let verified_one =
                    passed (not verified.email_verified) invalid_oauth_token (ap (λ p. p.0) e4) in
                  (
                    i,
                    value,
                    named,
                    ap (λ x. purpose_eq (OAuthIntent.purpose x) oauth_login) same
                        ∙ ground (arith, right),
                    ap
                          (λ x.
                            w.oauth_verify (OAuthIntent.provider x) provider_token
                              (OAuthIntent.nonce_hash x))
                          same
                        ∙ accepted,
                    sym flag ∙ ground (arith, verified_one),
                  )
