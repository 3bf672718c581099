-- ===== src/Identity/Accounts/Disabled.antt =====
-- A disabled account is shut out.
use b46_ordering_app_backend.Base.{
  ◌≡◌, ◌≢◌, refl, sym, ◌∙◌, ap, subst, String, false, not, ◌&&◌, List, [], ok, bind_ok, passed, got,
  ok-injective, arith, eq_iff, fail_if, ◌=s=◌, All, keep,
}
use b46_ordering_app_backend.Base.Keys.{find_key_sound}
use b46_ordering_app_backend.Base.Rows.{All-updated, All-found, keep-update-none}
use b46_ordering_app_backend.Identity.Domain.{
  Time, account_disabled, is_active, NewSession, Principal, User, invalid_input, unauthenticated,
  disabled_account, disable_account, revoke_sessions, insert_audit, lock_user,
}
use b46_ordering_app_backend.Identity.Tables.{Db, Env, UserRow, SessionRow, is_set, attempt}
use b46_ordering_app_backend.Identity.Transaction.{transaction_ok}
use b46_ordering_app_backend.Identity.Sessions.{
  find_user, add_audit, revoked, authenticate_access, create_session, create_session_body, is_owner,
  user_by_id_for_update,
}
use b46_ordering_app_backend.Identity.Sessions.Invariant.{is_live}
use b46_ordering_app_backend.Identity.Sessions.Replay.{read_access_ok}
use b46_ordering_app_backend.Identity.Accounts.{of_user, disable_body, disable_user}

-- Every row of the user is inactive.
abbrev Shut : String → UserRow → Type 0
Shut id u = u.id ≡ id → is_active u.account_status ≡ false

-- The sessions of a user that are not revoked.
unfoldable pub live_of : String → Db → List SessionRow
live_of id db = keep (λ s. of_user id s && is_live s) db.sessions

disabled_tables :
    (env : Env) (actor_id user_id : String) (now : Time) (db : Db) {u : Unit {0}}
    → (disable_user env actor_id user_id now db).0 ≡ ok u
    → All (Shut user_id) (disable_user env actor_id user_id now db).1.users
      × (live_of user_id (disable_user env actor_id user_id now db).1 ≡ [])
unfolding disable_user disable_body add_audit live_of
disabled_tables env actor_id user_id now db {u} h0 =
    let (after, h, end) = transaction_ok env (disable_body env actor_id user_id now) db u h0 in
    let sessions =
      keep-update-none (λ s. of_user user_id s && is_live s) (of_user user_id)
        (revoked "ACCOUNT_DISABLED" now) (λ s e. ground (arith, e)) (λ s e. ground (arith, e))
        db.sessions in
    let users =
      All-updated (Shut user_id) (λ u. u.id =s= user_id)
        (λ u. record u { account_status = account_disabled }) (λ u e q. refl)
        (λ u e q. absurd (ground (arith, e, q, eq_iff u.id user_id))) db.users in
    bind_ok (attempt env disable_account) h λ u1 e1 h1.
      bind_ok (fail_if (not (is_set (find_user user_id db))) invalid_input) h1 λ u2 e2 h2.
        bind_ok (attempt env revoke_sessions) h2 λ u3 e3 h3.
          bind_ok (attempt env insert_audit) h3 λ u4 e4 h4.
            subst (λ d. All (Shut user_id) d.users × (live_of user_id d ≡ []))
              (sym (end ∙ sym (ap (λ p. p.1) (ok-injective h4)))) (users, sessions)

Shut-authenticate :
    (env : Env) (hash user_id : String) (now : Time) (db : Db) (p : Principal)
    → All (Shut user_id) db.users
    → (authenticate_access env hash now db).0 ≡ ok p
    → p.user_id ≢ user_id
unfolding authenticate_access
Shut-authenticate env hash user_id now db p shut h e =
    let (s, u, found, owner, active, same) = read_access_ok env hash now db h in
    let inactive = All-found (Shut user_id) (is_owner s.user_id) db.users u shut owner in
    let named : u.id ≡ user_id = sym (ap Principal.user_id same) ∙ e in
    absurd (cc (inactive named, active))

Shut-create :
    (env : Env) (value : NewSession) (user_id : String) (db : Db) (user : User)
    → All (Shut user_id) db.users
    → value.user_id ≡ user_id
    → (create_session env value db).0 ≢ ok user
unfolding create_session create_session_body
Shut-create env value user_id db user shut named h0 =
    let (after, h, end) = transaction_ok env (create_session_body env value) db user h0 in
    bind_ok (user_by_id_for_update env value.user_id db) h λ u e1 h1.
      bind_ok (fail_if (not (is_active u.account_status)) disabled_account) h1 λ u2 e2 h2.
        bind_ok (attempt env lock_user) e1 λ u3 e3 h3.
          let here = got (find_user value.user_id db) unauthenticated h3 in
          let inactive =
            All-found (Shut user_id) (λ x. x.id =s= value.user_id) db.users u shut here in
          let is_it = find_key_sound UserRow.id value.user_id db.users here in
          let active = passed _ disabled_account e2 in
          absurd (ground (arith, active, inactive (is_it ∙ named)))

-- After an account was disabled it has no session that is not revoked, no access token is accepted as
-- one of the user's, and no session is created for the user.
pub disable_user-shuts :
    (env env' : Env) (actor_id user_id hash : String) (now later : Time) (value : NewSession)
    (db : Db) (p : Principal) (user : User)
    → (disable_user env actor_id user_id now db).0 ≡ ok tt
    → (live_of user_id (disable_user env actor_id user_id now db).1 ≡ [])
      × ((authenticate_access env' hash later (disable_user env actor_id user_id now db).1).0
          ≢ ok (record p { user_id = user_id }))
      × ((create_session env'
            (record value { user_id = user_id })
            (disable_user env actor_id user_id now db).1).0
          ≢ ok user)
disable_user-shuts env env' actor_id user_id hash now later value db p user done =
    let after = (disable_user env actor_id user_id now db).1 in
    let (shut, none_live) = disabled_tables env actor_id user_id now db done in
    let of_it = record p { user_id = user_id } in
    (
      none_live,
      (λ accepted. Shut-authenticate env' hash user_id later after of_it shut accepted refl),
      Shut-create env' (record value { user_id = user_id }) user_id after user shut refl,
    )
