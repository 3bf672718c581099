-- ===== src/Identity/OAuth/Once.antt =====
-- An OAuth intent is used once.
use b46_ordering_app_backend.Base.{
  ◌≡◌, ◌≢◌, inl, inr, refl, sym, ap, subst, String, Bool, true, false, not, ◌||◌, Option, none,
  some, Result, ok, bind_ok, got, ok-injective, arith, eq_iff, or_fail, fail_if, All, find_first,
}
use b46_ordering_app_backend.Base.Rows.{All-updated, All-found}
use b46_ordering_app_backend.Base.Keys.{found_passes}
use b46_ordering_app_backend.Identity.Domain.{
  Time, NewSession, VerifiedIdentity, User, OAuthIntent, IdentityError, invalid_oauth_intent,
  disabled_account, consume_intent, query_intent, find_subject, find_email, purpose_eq, provider_eq,
  oauth_login, is_active, technical, insert_user, identity_linked, role_customer,
}
use b46_ordering_app_backend.Identity.Tables.{Db, Env, UserRow, IntentRow, is_set, attempt, has}
use b46_ordering_app_backend.Identity.Transaction.{transaction_ok, transaction_cases}
use b46_ordering_app_backend.Identity.Sessions.{insert_session, user_of}
use b46_ordering_app_backend.Identity.OAuth.{
  is_usable, is_unconsumed, consumed, lock_intent, consume_oauth_intent, open_oauth_session,
  require_link, create_oauth_customer, login_new, login_as, subject_owner, find_email_owner,
  complete_login_body, complete_oauth_login, complete_link_body, complete_oauth_link, add_user,
  add_identity, new_user, identity_of,
}

-- No row of the intent can be used.
abbrev Spent : String → IntentRow → Type 0
Spent id i = i.id ≡ id → is_set i.consumed_at ≡ true

abbrev pub IsSpent : String → Db → Type 0
IsSpent id db = All (Spent id) db.intents

consume-IsSpent :
    (env : Env) (id : String) (now : Time) (db : Db) {after : Db}
    → consume_oauth_intent env id now db ≡ ok after
    → IsSpent id after
unfolding consume_oauth_intent
consume-IsSpent env id now db h =
    let rows =
      All-updated (Spent id) (is_unconsumed id) (consumed now) (λ i e q. refl)
        (λ i e q. ground (arith, e, q, eq_iff i.id id)) db.intents in
    bind_ok (attempt env consume_intent) h λ u1 e1 h1.
      bind_ok (fail_if (not (has (is_unconsumed id) db.intents)) invalid_oauth_intent) h1
        λ u2 e2 h2. subst (IsSpent id) (ok-injective h2) rows

-- A spent intent is not locked.
spent_unlocked :
    (env : Env) (id : String) (now : Time) (db : Db) (i : OAuthIntent)
    → IsSpent id db
    → lock_intent env id now db ≢ ok i
unfolding lock_intent
spent_unlocked env id now db i spent h =
    let rows = find_first (is_usable id now) db.intents in
    bind_ok (fail_if (env.fails query_intent) invalid_oauth_intent) h λ u1 e1 h1.
      bind_ok (or_fail rows invalid_oauth_intent) h1 λ r e2 h2.
        let here = got rows invalid_oauth_intent e2 in
        let usable = found_passes (is_usable id now) db.intents r here in
        let used = All-found (Spent id) (is_usable id now) db.intents r spent here in
        absurd (ground (arith, usable, used, eq_iff r.id id))

open-IsSpent :
    (env : Env) (id : String) (user : User) (session : NewSession) (now : Time) (db : Db)
    {answer : Result IdentityError User} {after : Db}
    → open_oauth_session env id user session now db ≡ ok (answer, after)
    → IsSpent id after
unfolding open_oauth_session
open-IsSpent env id user session now db h =
    bind_ok (fail_if (not (is_active user.status)) disabled_account) h λ u1 e1 h1.
      bind_ok (insert_session env (record session { user_id = user.id }) db) h1 λ opened e2 h2.
        bind_ok (consume_oauth_intent env id now opened) h2 λ last e3 h3.
          subst (IsSpent id) (ap (λ p. p.1) (ok-injective h3))
            (consume-IsSpent env id now opened e3)

link-IsSpent :
    (env : Env) (id : String) (now : Time) (db : Db) {answer : Result IdentityError User}
    {after : Db}
    → require_link env id now db ≡ ok (answer, after)
    → IsSpent id after
unfolding require_link
link-IsSpent env id now db h = bind_ok (consume_oauth_intent env id now db) h λ last e1 h1.
    subst (IsSpent id) (ap (λ p. p.1) (ok-injective h1)) (consume-IsSpent env id now db e1)

create-IsSpent :
    (env : Env) (id : String) (verified : VerifiedIdentity) (session : NewSession) (now : Time)
    (db : Db) {answer : Result IdentityError User} {after : Db}
    → create_oauth_customer env id verified session now db ≡ ok (answer, after)
    → IsSpent id after
unfolding create_oauth_customer
create-IsSpent env id verified session now db h =
    let u = new_user env verified.suggested_name verified.email role_customer in
    bind_ok (add_user env (technical insert_user) u db) h λ created e1 h1.
      bind_ok (add_identity env identity_linked (identity_of u.id verified) created) h1
        λ linked e2 h2. open-IsSpent env id (user_of u) session now linked h2

login_new-IsSpent :
    (env : Env) (id : String) (verified : VerifiedIdentity) (session : NewSession) (now : Time)
    (db : Db) (taken : Bool) {answer : Result IdentityError User} {after : Db}
    → login_new env id verified session now db taken ≡ ok (answer, after)
    → IsSpent id after
unfolding login_new
login_new-IsSpent env id verified session now db true h = link-IsSpent env id now db h
login_new-IsSpent env id verified session now db false h =
    create-IsSpent env id verified session now db h

login_as-IsSpent :
    (env : Env) (id : String) (verified : VerifiedIdentity) (session : NewSession) (now : Time)
    (db : Db) (owner : Option UserRow) {answer : Result IdentityError User} {after : Db}
    → login_as env id verified session now db owner ≡ ok (answer, after)
    → IsSpent id after
unfolding login_as
login_as-IsSpent env id verified session now db (some u) h =
    open-IsSpent env id (user_of u) session now db h
login_as-IsSpent env id verified session now db none h =
    bind_ok (attempt env find_email) h λ u1 e1 h1.
      login_new-IsSpent env id verified session now db (is_set (find_email_owner verified.email db))
        h1

-- Whatever CompleteOAuthLogin keeps in the tables, the intent is spent.
login-IsSpent :
    (env : Env) (id : String) (verified : VerifiedIdentity) (session : NewSession) (now : Time)
    (db : Db) {answer : Result IdentityError User} {after : Db}
    → complete_login_body env id verified session now db ≡ ok (answer, after)
    → IsSpent id after
unfolding complete_login_body
login-IsSpent env id verified session now db h = bind_ok (lock_intent env id now db) h λ i e1 h1.
    let wrong =
      not (purpose_eq i.purpose oauth_login) || not (provider_eq i.provider verified.provider) in
    bind_ok (fail_if wrong invalid_oauth_intent) h1 λ u2 e2 h2.
      bind_ok (attempt env find_subject) h2 λ u3 e3 h3.
        login_as-IsSpent env id verified session now db
          (subject_owner verified.provider verified.subject db) h3

spent_login :
    (env : Env) (id : String) (verified : VerifiedIdentity) (session : NewSession) (now : Time)
    (db : Db)
    → IsSpent id db
    → (complete_oauth_login env id verified session now db).1 ≡ db
unfolding complete_oauth_login complete_login_body
spent_login env id verified session now db spent =
    elim (transaction_cases env (complete_login_body env id verified session now) db) [
      | inl same ↦ same
      | inr (answer, after, done, end) ↦
          bind_ok (lock_intent env id now db) done
            λ i e h. absurd (spent_unlocked env id now db i spent e)
    ]

spent_link :
    (env : Env) (id user_id : String) (verified : VerifiedIdentity) (now : Time) (db : Db)
    → IsSpent id db
    → (complete_oauth_link env id user_id verified now db).1 ≡ db
unfolding complete_oauth_link complete_link_body
spent_link env id user_id verified now db spent =
    elim (transaction_cases env (complete_link_body env id user_id verified now) db) [
      | inl same ↦ same
      | inr (answer, after, done, end) ↦
          bind_ok (lock_intent env id now db) done
            λ i e h. absurd (spent_unlocked env id now db i spent e)
    ]

complete_oauth_login-IsSpent :
    (env : Env) (id : String) (verified : VerifiedIdentity) (session : NewSession) (now : Time)
    (db : Db) (user : User)
    → (complete_oauth_login env id verified session now db).0 ≡ ok user
    → IsSpent id (complete_oauth_login env id verified session now db).1
unfolding complete_oauth_login
complete_oauth_login-IsSpent env id verified session now db user h =
    let (after, done, end) =
      transaction_ok env (complete_login_body env id verified session now) db user h in
    subst (IsSpent id) (sym end) (login-IsSpent env id verified session now db done)

-- An OAuth intent works once. After a login that answered with a user, neither another login nor a link
-- with the same intent changes the tables, whatever identity is presented.
pub complete_oauth_login-once :
    (env again : Env) (id user_id : String) (verified verified' : VerifiedIdentity)
    (session session' : NewSession) (now later : Time) (db : Db) (user : User)
    → (complete_oauth_login env id verified session now db).0 ≡ ok user
    → ((complete_oauth_login again id verified' session' later
          (complete_oauth_login env id verified session now db).1).1
        ≡ (complete_oauth_login env id verified session now db).1)
      × ((complete_oauth_link again id user_id verified' later
            (complete_oauth_login env id verified session now db).1).1
          ≡ (complete_oauth_login env id verified session now db).1)
complete_oauth_login-once env again id user_id verified verified' session session' now later db user
      h =
    let after = (complete_oauth_login env id verified session now db).1 in
    let spent = complete_oauth_login-IsSpent env id verified session now db user h in
    (
      spent_login again id verified' session' later after spent,
      spent_link again id user_id verified' later after spent,
    )
