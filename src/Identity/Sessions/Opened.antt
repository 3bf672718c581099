-- ===== src/Identity/Sessions/Opened.antt =====
-- A session that was created authenticates its user, and an unverified cashier gets none.
use b46_ordering_app_backend.Base.{
  ◌≡◌, ◌≢◌, sym, ◌∙◌, ap, subst, String, true, false, not, none, some, [], ◌∷◌, ◌++◌, ok, bind_ok,
  passed, got, ok-injective, arith, eq_iff, eq_refl, or_fail, fail_if, ◌=s=◌, ltb, find_first,
}
use b46_ordering_app_backend.Base.Keys.{Distinct, Absent, found_passes, same_row}
use b46_ordering_app_backend.Base.Rows.{find_first-snoc, find_first-Absent}
use b46_ordering_app_backend.Identity.Domain.{
  Time, NewSession, User, Principal, PasswordRecord, unauthenticated, disabled_account, technical,
  lock_user, add_session, query_access, is_active, role_cashier, query_password,
  invalid_credentials,
}
use b46_ordering_app_backend.Identity.Tables.{Db, Env, UserRow, SessionRow, attempt}
use b46_ordering_app_backend.Identity.Transaction.{transaction_ok, Works}
use b46_ordering_app_backend.Identity.Sessions.{
  session_row, insert_session, create_session, create_session_body, authenticate_access,
  read_access, is_open, is_owner, principal_of, user_by_id_for_update, find_user, user_of,
  find_password, is_identity,
}
use b46_ordering_app_backend.Identity.Sessions.Invariant.{insert_session_ok}
use b46_ordering_app_backend.Identity.Sessions.Replay.{read_access_ok}

-- The user that an inserted session belongs to may sign in.
pub insert_session_owner :
    (env : Env) (value : NewSession) (db : Db) {after : Db}
    → insert_session env value db ≡ ok after
    → (u : UserRow) × (find_first (is_owner value.user_id) db.users ≡ some u)
unfolding insert_session
insert_session_owner env value db h = bind_ok (attempt env add_session) h λ u1 e1 h1.
    bind_ok (or_fail (find_first (is_owner value.user_id) db.users) unauthenticated) h1
      λ u e2 h2. (u, got _ unauthenticated e2)

-- What a created session says.
pub create_session_ok :
    (env : Env) (value : NewSession) (db : Db) {user : User}
    → (create_session env value db).0 ≡ ok user
    → (u : UserRow) × (owner : UserRow) × (find_user value.user_id db ≡ some u)
      × (find_first (is_owner value.user_id) db.users ≡ some owner)
      × (is_active u.account_status ≡ true)
      × (user ≡ user_of u)
      × Absent SessionRow.access_token_hash value.access_token_hash db.sessions
      × ((create_session env value db).1
          ≡ record db { sessions = db.sessions ++ session_row env value ∷ [] })
unfolding create_session create_session_body
create_session_ok env value db {user} h0 =
    let (after, h, end) = transaction_ok env (create_session_body env value) db user h0 in
    bind_ok (user_by_id_for_update env value.user_id db) h λ u e1 h1.
      bind_ok (fail_if (not (is_active u.account_status)) disabled_account) h1 λ u2 e2 h2.
        bind_ok (insert_session env value db) h2 λ mid e3 h3.
          bind_ok (attempt env lock_user) e1 λ u4 e4 h4.
            let (owner, owned) = insert_session_owner env value db e3 in
            let (free, added) = insert_session_ok env value db e3 in
            (
              u,
              owner,
              got _ unauthenticated h4,
              owned,
              active u.account_status (passed _ disabled_account e2),
              sym (ok-injective (ap (λ p. p.0) (ok-injective h3))),
              free.1,
              end ∙ sym (ap (λ p. p.1) (ok-injective h3)) ∙ added,
            )
  where
    active : (a : _) → not (is_active a) ≡ false → is_active a ≡ true
    active a e = ground (arith, e)

-- The principal of a user in a session family.
abbrev pub principal_in : String → User → Principal
principal_in family user = record {
  user_id = user.id;
  role = user.role;
  status = user.status;
  family_id = family;
  must_change_password = user.must_change_password;
}

read_access_found :
    (env : Env) (hash : String) (now : Time) (db : Db) (s : SessionRow) (u : UserRow)
    → Works env
    → find_first (is_open hash now) db.sessions ≡ some s
    → find_first (is_owner s.user_id) db.users ≡ some u
    → is_active u.account_status ≡ true
    → read_access env hash now db ≡ ok (principal_of s u)
unfolding read_access
read_access_found env hash now db s u works found owned active =
    rw (works query_access, found, owned, active)

-- The access token of a session that was created authenticates its user until it expires, when no step
-- fails for a technical reason. Users have distinct ids.
pub create_session-authenticates :
    (env again : Env) (value : NewSession) (later : Time) (db : Db) (user : User)
    → Distinct UserRow.id db.users
    → (create_session env value db).0 ≡ ok user
    → Works again
    → ltb later value.access_expires_at ≡ true
    → (authenticate_access again value.access_token_hash later (create_session env value db).1).0
      ≡ ok (principal_in (session_row env value).family_id user)
unfolding authenticate_access read_access
create_session-authenticates env again value later db user distinct h works early =
    let (u, owner, here, owned, active, answered, free, end) = create_session_ok env value db h in
    let id_of = found_passes (is_owner value.user_id) db.users owner owned in
    let id_of_u = found_passes (λ x. x.id =s= value.user_id) db.users u here in
    let one : u ≡ owner =
      same_row UserRow.id (λ x. x.id =s= value.user_id) (is_owner value.user_id) db.users u owner
        distinct here owned
        (ground
          (arith, id_of, id_of_u, eq_iff u.id value.user_id, eq_iff owner.id value.user_id)) in
    let new = session_row env value in
    let none_open : find_first (is_open value.access_token_hash later) db.sessions ≡ none =
      find_first-Absent SessionRow.access_token_hash value.access_token_hash
        (is_open value.access_token_hash later)
        (λ s e. ground (arith, e, eq_iff s.access_token_hash value.access_token_hash)) db.sessions
        free in
    let found : find_first (is_open value.access_token_hash later) (db.sessions ++ new ∷ [])
        ≡ some new =
      find_first-snoc (is_open value.access_token_hash later) db.sessions new none_open
        (ground (arith, early, eq_refl value.access_token_hash)) in
    let after : Db = record db { sessions = db.sessions ++ new ∷ [] } in
    let still : is_active owner.account_status ≡ true =
      subst (λ x. is_active x.account_status ≡ true) one active in
    let read =
      read_access_found again value.access_token_hash later after new owner works found owned
        still in
    let same : principal_of new owner ≡ principal_in new.family_id user =
      sym (ap (λ x. principal_in new.family_id (user_of x)) one)
      ∙ sym (ap (principal_in new.family_id) answered) in
    ap (λ d. (authenticate_access again value.access_token_hash later d).0) end ∙ read ∙ ap ok same

find_password_ok :
    (env : Env) (email : String) (db : Db) {found : PasswordRecord}
    → find_password env email db ≡ ok found
    → (id : String) × (u : UserRow) × (find_first (is_owner id) db.users ≡ some u)
      × (found.user.id ≡ u.id)
find_password_ok env email db h = bind_ok (attempt env query_password) h λ u1 e1 h1.
    bind_ok (or_fail (find_first (is_identity email) db.identities) invalid_credentials) h1
      λ i e2 h2.
        bind_ok (or_fail (find_first (is_owner i.user_id) db.users) invalid_credentials) h2
          λ u e3 h3. bind_ok (or_fail i.password_hash (technical query_password)) h3 λ hash e4 h4. (
            i.user_id,
            u,
            got _ invalid_credentials e3,
            sym (ap (λ r. r.user.id) (ok-injective h4)),
          )

-- No search for a user who may sign in finds an unverified cashier.
barred :
    (db : Db) (u : UserRow)
    → Distinct UserRow.id db.users
    → find_user u.id db ≡ some u
    → u.role ≡ role_cashier
    → u.email_verified_at ≡ none
    → (id : String) (owner : UserRow) → find_first (is_owner id) db.users ≡ some owner
    → owner.id ≢ u.id
barred db u distinct here cashier unverified id owner owned e =
    let passes = found_passes (is_owner id) db.users owner owned in
    let one =
      same_row UserRow.id (is_owner id) (λ x. x.id =s= u.id) db.users owner u distinct owned here
        e in
    let role : owner.role ≡ role_cashier = ap UserRow.role one ∙ cashier in
    let unset : owner.email_verified_at ≡ none = ap UserRow.email_verified_at one ∙ unverified in
    absurd (ground (arith, passes, role, unset))

-- An unverified cashier is shut out: no access token is accepted as one of the cashier's, no password
-- record of the cashier is found, and no session is created for the cashier. Users have distinct ids.
pub unverified_cashier-refused :
    (env : Env) (hash email : String) (now : Time) (value : NewSession) (db : Db) (u : UserRow)
    (p : Principal) (found : PasswordRecord) (user : User)
    → Distinct UserRow.id db.users
    → find_user u.id db ≡ some u
    → u.role ≡ role_cashier
    → u.email_verified_at ≡ none
    → ((authenticate_access env hash now db).0 ≢ ok (record p { user_id = u.id }))
      × (find_password env email db ≢ ok (record found { user = record user { id = u.id } }))
      × ((create_session env (record value { user_id = u.id }) db).0 ≢ ok user)
unfolding authenticate_access
unverified_cashier-refused env hash email now value db u p found user distinct here cashier
      unverified =
    (
      (λ accepted.
          let (s, owner, open_row, owned, active, same) = read_access_ok env hash now db accepted in
          barred db u distinct here cashier unverified s.user_id owner owned
            (sym (ap Principal.user_id same))),
      (λ recorded.
          let (i, other, owned, same) = find_password_ok env email db recorded in
          barred db u distinct here cashier unverified i other owned (sym same)),
      (λ h.
          let made = create_session_ok env (record value { user_id = u.id }) db h in
          let passes = found_passes (is_owner u.id) db.users made.1 made.3 in
          barred db u distinct here cashier unverified u.id made.1 made.3
            (ground (arith, passes, eq_iff made.1.id u.id))),
    )
