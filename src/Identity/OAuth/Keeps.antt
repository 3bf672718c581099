-- ===== src/Identity/OAuth/Keeps.antt =====
-- A login by an OAuth account keeps the table of sessions sound.
use b46_ordering_app_backend.Base.{
  ◌≡◌, ◌≢◌, sym, ◌∙◌, ap, subst, String, Bool, true, false, not, ◌||◌, Option, none, some, Result,
  ok, bind_ok, ok-injective, fail_if,
}
use b46_ordering_app_backend.Identity.Domain.{
  Time, is_active, NewSession, VerifiedIdentity, User, IdentityError, disabled_account,
  identity_linked, technical, insert_user, invalid_oauth_intent, role_customer, find_email,
  find_subject, consume_intent, purpose_eq, provider_eq, oauth_login,
}
use b46_ordering_app_backend.Identity.Tables.{Db, Env, UserRow, SessionRow, is_set, has, attempt}
use b46_ordering_app_backend.Identity.Sessions.{insert_session, user_of}
use b46_ordering_app_backend.Identity.Sessions.Invariant.{IsKept}
use b46_ordering_app_backend.Identity.Sessions.Keeps.{DrawsFamily, insert_session-IsKept}
use b46_ordering_app_backend.Identity.OAuth.{
  is_unconsumed, consume_oauth_intent, open_oauth_session, require_link, create_oauth_customer,
  login_new, login_as, lock_intent, subject_owner, find_email_owner, complete_login_body,
  complete_oauth_login, add_user, add_identity, new_user, identity_of,
}
use b46_ordering_app_backend.Base.{keep}
use b46_ordering_app_backend.Base.Keys.{Absent}
use b46_ordering_app_backend.Identity.Domain.{draw_family}
use b46_ordering_app_backend.Identity.Sessions.Invariant.{is_live}
use b46_ordering_app_backend.Identity.OAuth.Added.{add_user_ok, add_identity_ok}
use b46_ordering_app_backend.Identity.Ended.{Kept, transaction-Kept}

draws_same :
    (env : Env) (a b : Db) → a.sessions ≡ b.sessions → DrawsFamily env b → DrawsFamily env a
draws_same env a b same d =
    subst
      (λ rows.
        (env.new_id draw_family ≢ "")
        × Absent SessionRow.family_id (env.new_id draw_family) (keep is_live rows))
      (sym same) d

consume-Kept :
    (env : Env) (id : String) (now : Time) (db : Db) {after : Db}
    → Kept db
    → consume_oauth_intent env id now db ≡ ok after
    → Kept after
unfolding consume_oauth_intent
consume-Kept env id now db k h = bind_ok (attempt env consume_intent) h λ u1 e1 h1.
    bind_ok (fail_if (not (has (is_unconsumed id) db.intents)) invalid_oauth_intent) h1
      λ u2 e2 h2. subst Kept (ok-injective h2) k

open_oauth-Kept :
    (env : Env) (id : String) (user : User) (session : NewSession) (now : Time) (db : Db)
    {answer : Result IdentityError User} {after : Db}
    → session.family_id ≡ ""
    → DrawsFamily env db
    → Kept db
    → open_oauth_session env id user session now db ≡ ok (answer, after)
    → Kept after
unfolding open_oauth_session
open_oauth-Kept env id user session now db blank draws k h =
    bind_ok (fail_if (not (is_active user.status)) disabled_account) h λ u1 e1 h1.
      bind_ok (insert_session env (record session { user_id = user.id }) db) h1 λ opened e2 h2.
        bind_ok (consume_oauth_intent env id now opened) h2 λ last e3 h3.
          subst Kept (ap (λ p. p.1) (ok-injective h3)) (
            consume-Kept env id now opened
              (insert_session-IsKept env (record session { user_id = user.id }) db blank draws k e2)
              e3)

create_customer-Kept :
    (env : Env) (id : String) (verified : VerifiedIdentity) (session : NewSession) (now : Time)
    (db : Db) {answer : Result IdentityError User} {after : Db}
    → session.family_id ≡ ""
    → DrawsFamily env db
    → Kept db
    → create_oauth_customer env id verified session now db ≡ ok (answer, after)
    → Kept after
unfolding create_oauth_customer
create_customer-Kept env id verified session now db blank draws k h =
    let u = new_user env verified.suggested_name verified.email role_customer in
    bind_ok (add_user env (technical insert_user) u db) h λ created e1 h1.
      bind_ok (add_identity env identity_linked (identity_of u.id verified) created) h1
        λ linked e2 h2.
          let added = add_user_ok env (technical insert_user) u db e1 in
          let joined = add_identity_ok env identity_linked (identity_of u.id verified) created e2 in
          let same : linked.sessions ≡ db.sessions =
            ap Db.sessions joined ∙ ap Db.sessions added.0 in
          open_oauth-Kept env id (user_of u) session now linked blank
            (draws_same env linked db same draws) (subst IsKept (sym same) k) h2

login_new-Kept :
    (env : Env) (id : String) (verified : VerifiedIdentity) (session : NewSession) (now : Time)
    (db : Db) (taken : Bool) {answer : Result IdentityError User} {after : Db}
    → session.family_id ≡ ""
    → DrawsFamily env db
    → Kept db
    → login_new env id verified session now db taken ≡ ok (answer, after)
    → Kept after
unfolding login_new require_link
login_new-Kept env id verified session now db true blank draws k h =
    bind_ok (consume_oauth_intent env id now db) h
      λ last e1 h1. subst Kept (ap (λ p. p.1) (ok-injective h1)) (consume-Kept env id now db k e1)
login_new-Kept env id verified session now db false blank draws k h =
    create_customer-Kept env id verified session now db blank draws k h

login_as-Kept :
    (env : Env) (id : String) (verified : VerifiedIdentity) (session : NewSession) (now : Time)
    (db : Db) (owner : Option UserRow) {answer : Result IdentityError User} {after : Db}
    → session.family_id ≡ ""
    → DrawsFamily env db
    → Kept db
    → login_as env id verified session now db owner ≡ ok (answer, after)
    → Kept after
unfolding login_as
login_as-Kept env id verified session now db (some u) blank draws k h =
    open_oauth-Kept env id (user_of u) session now db blank draws k h
login_as-Kept env id verified session now db none blank draws k h =
    bind_ok (attempt env find_email) h λ u1 e1 h1.
      login_new-Kept env id verified session now db (is_set (find_email_owner verified.email db))
        blank draws k h1

pub complete_oauth_login-Kept :
    (env : Env) (id : String) (verified : VerifiedIdentity) (session : NewSession) (now : Time)
    (db : Db)
    → session.family_id ≡ ""
    → DrawsFamily env db
    → Kept db
    → Kept (complete_oauth_login env id verified session now db).1
unfolding complete_oauth_login complete_login_body
complete_oauth_login-Kept env id verified session now db blank draws k =
    transaction-Kept env (complete_login_body env id verified session now) db k λ answer after h.
      bind_ok (lock_intent env id now db) h λ i e1 h1.
        let wrong =
          not (purpose_eq i.purpose oauth_login)
          || not (provider_eq i.provider verified.provider) in
        bind_ok (fail_if wrong invalid_oauth_intent) h1 λ u2 e2 h2.
          bind_ok (attempt env find_subject) h2 λ u3 e3 h3.
            login_as-Kept env id verified session now db
              (subject_owner verified.provider verified.subject db) blank draws k h3
