-- ===== src/Identity/Service/Login.antt =====
-- Logging in: what the tokens of a login are worth.
use b46_ordering_app_backend.Base.{
  ◌≡◌, inl, inr, refl, sym, ◌∙◌, ap, subst, String, Bool, true, false, Option, none, some, ok,
  arith, ok-injective, or_fail, fail_if, Bool-cases, ltb,
}
use b46_ordering_app_backend.Base.Keys.{Distinct, find_key_sound}
use b46_ordering_app_backend.Base.{Result-cases}
use b46_ordering_app_backend.Identity.Domain.{
  User, Principal, PasswordRecord, NewSession, SessionTokens, technical, hash_password, wrapped,
  create_session, update_hash, upgrade_hash, disabled_account, invalid_credentials, status_eq,
  account_disabled, normalize_email, validate_password,
}
use b46_ordering_app_backend.Identity.Tables.{Db, Env, UserRow, has}
use b46_ordering_app_backend.Identity.Transaction.{Works}
use b46_ordering_app_backend.Identity.Sessions
use b46_ordering_app_backend.Identity.Sessions.Opened.{
  principal_in, create_session-authenticates, create_session_ok,
}
use b46_ordering_app_backend.Identity.Service.{
  World, session_with, judged, make_session, with_user, open_session, well_formed, password_error,
  check_password, upgrade, password_login, is_blank, authenticate, on_error, access_error, proceed,
  translated, is_ok,
}
use b46_ordering_app_backend.Identity.Service.Outcomes.{
  proceed_ok, translated_ok, translated_tables, translated_value,
}

-- What a session that was opened says.
open_session_ok :
    (w : World) (env : Env) (user_id : String) (db : Db) {tokens : SessionTokens}
    → (open_session w env user_id db).0 ≡ ok tokens
    → (made : SessionTokens × NewSession) × (user : User) × (make_session w user_id ≡ ok made)
      × ((Sessions.create_session env made.1 db).0 ≡ ok user)
      × (tokens ≡ with_user made.0 user)
      × ((open_session w env user_id db).1 ≡ (Sessions.create_session env made.1 db).1)
unfolding open_session
open_session_ok w env user_id db h =
    proceed_ok (make_session w user_id, db) h
      λ made d e1 h1 end1.
        proceed_ok (on_error (wrapped create_session) (Sessions.create_session env made.1) d) h1
          λ user d2 e2 h2 end2.
            let created =
              translated_ok (wrapped create_session) (Sessions.create_session env made.1 d) e2 in
            let same : db ≡ d = ap (λ p. p.1) e1 in
            (
              made,
              user,
              ap (λ p. p.0) e1,
              ap (λ x. (Sessions.create_session env made.1 x).0) same ∙ ap (λ p. p.0) created,
              sym (ok-injective h2),
              end1
                  ∙ end2
                  ∙ sym (ap (λ p. p.1) created)
                  ∙ ap (λ x. (Sessions.create_session env made.1 x).1) (sym same),
            )

rehash_users :
    (env : Env) (user_id encoded : String) (db : Db)
    → (Sessions.update_password_hash env user_id encoded db).1.users ≡ db.users
unfolding Sessions.update_password_hash
rehash_users env user_id encoded db = elim (Bool-cases (env.fails update_hash)) [
  | inl e ↦ elim (Bool-cases env.applied) [ inl a ↦ rw (e, a) | inr a ↦ rw (e, a) ]
  | inr e ↦ elim (Bool-cases (has (Sessions.has_password user_id) db.identities)) [
    | inl a ↦ rw (e, a)
    | inr a ↦ rw (e, a)
  ]
]

hashed :
    (w : World) (user_id : String) (o : Option String) (db : Db)
    → (proceed
        (λ replacement.
          on_error
            (wrapped upgrade_hash)
            (Sessions.update_password_hash (w.store 1) user_id replacement))
        (or_fail o (technical hash_password), db)).1.users
      ≡ db.users
hashed w user_id none db = refl
hashed w user_id (some hash) db =
    let update = Sessions.update_password_hash (w.store 1) user_id hash db in
    ap Db.users (translated_tables (wrapped upgrade_hash) update)
    ∙ rehash_users (w.store 1) user_id hash db

-- Upgrading a hash leaves the users alone.
upgrade_users :
    (w : World) (user_id password : String) (needs : Bool) (db : Db)
    → (upgrade w user_id password needs db).1.users ≡ db.users
unfolding upgrade
upgrade_users w user_id password false db = refl
upgrade_users w user_id password true db = hashed w user_id (w.hash password) db

-- What a login that answers with tokens says.
password_login_ok :
    (w : World) (email password : String) (db : Db) {tokens : SessionTokens}
    → (password_login w email password db).0 ≡ ok tokens
    → (normalized : String) × (found : PasswordRecord) × (needs : Bool) × (d : Db) × (well_formed w
          email password invalid_credentials
        ≡ ok normalized)
      × (Sessions.find_password (w.store 0) normalized db ≡ ok found)
      × (check_password w password found.password_hash ≡ ok needs)
      × (d.users ≡ db.users)
      × ((open_session w (w.store 2) found.user.id d).0 ≡ ok tokens)
      × ((password_login w email password db).1 ≡ (open_session w (w.store 2) found.user.id d).1)
unfolding password_login
password_login_ok w email password db h =
    proceed_ok (well_formed w email password invalid_credentials, db) h
      λ normalized d1 e1 h1 end1.
        let read = Sessions.find_password (w.store 0) normalized in
        proceed_ok (translated password_error (read d1, d1)) h1 λ found d2 e2 h2 end2.
          let record_found = translated_ok password_error (read d1, d1) e2 in
          proceed_ok (check_password w password found.password_hash, d2) h2
            λ needs d3 e3 h3 end3.
              let enabled =
                fail_if (status_eq found.user.status account_disabled) disabled_account in
              proceed_ok (enabled, d3) h3
                λ u d4 e4 h4 end4.
                  proceed_ok (upgrade w found.user.id password needs d4) h4 λ u' d5 e5 h5 end5.
                    let same : db ≡ d4 =
                      ap (λ p. p.1) e1
                      ∙ ap (λ p. p.1) record_found
                      ∙ ap (λ p. p.1) e3
                      ∙ ap (λ p. p.1) e4 in
                    (
                      normalized,
                      found,
                      needs,
                      d5,
                      ap (λ p. p.0) e1,
                      ap read (ap (λ p. p.1) e1) ∙ ap (λ p. p.0) record_found,
                      ap (λ p. p.0) e3,
                      ap (λ p. p.1.users) (sym e5)
                          ∙ upgrade_users w found.user.id password needs d4
                          ∙ ap Db.users (sym same),
                      h5,
                      end1 ∙ end2 ∙ end3 ∙ end4 ∙ end5,
                    )

-- The session that goes with the tokens of make_session.
session_with_ok :
    (w : World) (user_id : String) (a b : Option String) {made : SessionTokens × NewSession}
    → session_with w user_id a b ≡ ok made
    → (made.1.user_id ≡ user_id)
      × (made.1.access_token_hash ≡ w.hash_token made.0.access_token)
      × (made.1.access_expires_at ≡ made.0.access_token_expires_at)
session_with_ok w user_id none b h = absurd (cc)
session_with_ok w user_id (some access) none h = absurd (cc)
session_with_ok w user_id (some access) (some token) h =
    let same = ok-injective h in
    (
      sym (ap (λ m. m.1.user_id) same),
      sym (ap (λ m. m.1.access_token_hash) same) ∙ ap (λ m. w.hash_token m.0.access_token) same,
      sym (ap (λ m. m.1.access_expires_at) same) ∙ ap (λ m. m.0.access_token_expires_at) same,
    )

judged_ok : (o : Option (Bool × Bool)) {needs : Bool} → judged o ≡ ok needs → o ≡ some (true, needs)
judged_ok none h = absurd (cc)
judged_ok (some (true, needs)) h = ap (λ b. some (true, b)) (ok-injective h)
judged_ok (some (false, needs)) h = absurd (cc)

authenticate_value :
    (w : World) (token : String) (db : Db) (p : Principal)
    → is_blank token ≡ false
    → (Sessions.authenticate_access (w.store 0) (w.hash_token token) (w.clock 0) db).0 ≡ ok p
    → (authenticate w token db).0 ≡ ok p
unfolding authenticate
authenticate_value w token db p full h = rw full (
    translated_value access_error
      (Sessions.authenticate_access (w.store 0) (w.hash_token token) (w.clock 0) db) h)

well_formed_ok :
    (w : World) (email password : String) {normalized : String}
    → well_formed w email password invalid_credentials ≡ ok normalized
    → normalize_email w.lower email ≡ ok normalized
well_formed_ok w email password h = elim (Result-cases (normalize_email w.lower email)) [
  | inr (e, bad) ↦ absurd (ground (arith, bad, h))
  | inl (a, good) ↦ elim (Bool-cases (is_ok (validate_password password))) [
    | inl v ↦ good ∙ (rw (good, v, well_formed) at h)
    | inr v ↦ absurd (ground (arith, good, v, h))
  ]
]

-- A session is opened for the user that it names.
created_user :
    (env : Env) (value : NewSession) (d : Db) {user : User}
    → (Sessions.create_session env value d).0 ≡ ok user
    → user.id ≡ value.user_id
created_user env value d h =
    let (u, owner, here, owned, active, answered, free, end) = create_session_ok env value d h in
    ap User.id answered ∙ find_key_sound UserRow.id value.user_id d.users here

-- A password login gives tokens only for the stored password of the address as it is normalized, they
-- are tokens of the user of that password, and the access token authenticates that user until it
-- expires: when no step of the later call fails for a technical
-- reason, the token is not blank, and both calls digest it alike. Users have distinct ids.
pub password_login-authenticates :
    (w again : World) (email password : String) (db : Db) (tokens : SessionTokens)
    → Distinct UserRow.id db.users
    → (password_login w email password db).0 ≡ ok tokens
    → Works (again.store 0)
    → again.hash_token tokens.access_token ≡ w.hash_token tokens.access_token
    → is_blank tokens.access_token ≡ false
    → ltb (again.clock 0) tokens.access_token_expires_at ≡ true
    → (normalized : String) × (found : PasswordRecord) × (needs : Bool) × (user : User)
      × (family : String) × (normalize_email w.lower email ≡ ok normalized)
      × (Sessions.find_password (w.store 0) normalized db ≡ ok found)
      × (w.verify password found.password_hash ≡ some (true, needs))
      × (user.id ≡ found.user.id)
      × (tokens.user ≡ some user)
      × ((authenticate again tokens.access_token (password_login w email password db).1).0
          ≡ ok (principal_in family user))
unfolding make_session
password_login-authenticates w again email password db tokens distinct h works alike full early =
    let (normalized, found, needs, d, valid, recorded, checked, users, opened, end) =
      password_login_ok w email password db h in
    let (made, user, session, created, is_tokens, end') =
      open_session_ok w (w.store 2) found.user.id d opened in
    let (user_id_of, hash_of, expiry_of) =
      session_with_ok w found.user.id (w.token 0) (w.token 1) session in
    let access : tokens.access_token ≡ made.0.access_token =
      ap SessionTokens.access_token is_tokens in
    let hash : again.hash_token tokens.access_token ≡ made.1.access_token_hash =
      alike ∙ ap w.hash_token access ∙ sym hash_of in
    let expiry : tokens.access_token_expires_at ≡ made.1.access_expires_at =
      ap SessionTokens.access_token_expires_at is_tokens ∙ sym expiry_of in
    let in_time : ltb (again.clock 0) made.1.access_expires_at ≡ true =
      subst (λ t. ltb (again.clock 0) t ≡ true) expiry early in
    let accepted =
      create_session-authenticates (w.store 2) (again.store 0) made.1 (again.clock 0) d user
        (subst (Distinct UserRow.id) (sym users) distinct) created works in_time in
    let read : (Sessions.authenticate_access (again.store 0) (again.hash_token tokens.access_token)
          (again.clock 0) (password_login w email password db).1).0
        ≡ ok (principal_in (Sessions.session_row (w.store 2) made.1).family_id user) =
      ap
        (λ t.
          (Sessions.authenticate_access (again.store 0) t (again.clock 0)
            (password_login w email password db).1).0)
        hash
      ∙ ap
          (λ x.
            (Sessions.authenticate_access (again.store 0) made.1.access_token_hash (again.clock 0)
              x).0)
          (end ∙ end')
      ∙ accepted in
    (
      normalized,
      found,
      needs,
      user,
      (Sessions.session_row (w.store 2) made.1).family_id,
      well_formed_ok w email password valid,
      recorded,
      judged_ok (w.verify password found.password_hash) checked,
      created_user (w.store 2) made.1 d created ∙ user_id_of,
      ap SessionTokens.user is_tokens,
      authenticate_value again tokens.access_token (password_login w email password db).1
          (principal_in (Sessions.session_row (w.store 2) made.1).family_id user) full read,
    )
