-- ===== src/Identity/Sessions/Keeps.antt =====
-- Every session call of identity/adapters/postgres/store.go keeps the table of sessions sound.
use b46_ordering_app_backend.Base.{
  ◌≡◌, ◌∙◌, ◌≢◌, inl, inr, refl, sym, subst, ap, String, true, false, not, ◌||◌, Option, none, some,
  Result, ok, err, bind_ok, passed, got, arith, eq_iff, ok-injective, or_fail, fail_if, Bool-cases,
  ◌=s=◌, keep, ltb, find_first,
}
use b46_ordering_app_backend.Base.Keys.{Absent, find_key, found_by_key}
use b46_ordering_app_backend.Base.Rows.{All-found}
use b46_ordering_app_backend.Identity.Domain.{
  Time, NewSession, User, Principal, IdentityError, unauthenticated, disabled_account, lock_refresh,
  revoke_family, insert_audit, consume_session, add_session, draw_family, is_active, touch_session,
}
use b46_ordering_app_backend.Identity.Tables.{Db, Env, UserRow, SessionRow, is_set, attempt}
use b46_ordering_app_backend.Identity.Transaction.{transaction_cases, statement_cases}
use b46_ordering_app_backend.Identity.Sessions.{
  session_row, insert_session, create_session, create_session_body, authenticate_access,
  read_access, touched, touch, revoke_family_call, revoke_family_rows, audit_revoked, add_audit,
  in_family, revoked, replay_detected, replace_session, successor, rotated, rotate_session,
  rotate_body, rotate_refresh, user_by_id_for_update, after_replay, find_user, user_of, consume,
}
use b46_ordering_app_backend.Identity.Sessions.Invariant.{
  IsKept, Ends, is_live, update-IsKept, insert_session_ok, insert-IsKept, replace-IsKept,
  revoked-Ends, rotated-Ends,
}

-- The uuid drawn for a new family is a text that no live session has as its family.
abbrev pub DrawsFamily : Env → Db → Type 0
DrawsFamily env db =
    (env.new_id draw_family ≢ "")
    × Absent SessionRow.family_id (env.new_id draw_family) (keep is_live db.sessions)

pub insert_session-IsKept :
    (env : Env) (value : NewSession) (db : Db) {after : Db}
    → value.family_id ≡ ""
    → DrawsFamily env db
    → IsKept db.sessions
    → insert_session env value db ≡ ok after
    → IsKept after.sessions
insert_session-IsKept env value db blank alone k h =
    let done = insert_session_ok env value db h in
    let family : (session_row env value).family_id ≡ env.new_id draw_family = rw blank in
    subst (λ d. IsKept d.sessions) (sym done.1)
      (insert-IsKept (session_row env value) db.sessions done.0
        (subst (λ f. Absent SessionRow.family_id f (keep is_live db.sessions)) (sym family) alone.1)
        (λ e. alone.0 (sym family ∙ e)) refl refl k)

create_session_body-IsKept :
    (env : Env) (value : NewSession) (db : Db) {answer : Result IdentityError User} {after : Db}
    → value.family_id ≡ ""
    → DrawsFamily env db
    → IsKept db.sessions
    → create_session_body env value db ≡ ok (answer, after)
    → IsKept after.sessions
unfolding create_session_body
create_session_body-IsKept env value db blank alone k h =
    bind_ok (user_by_id_for_update env value.user_id db) h λ u e1 h1.
      bind_ok (fail_if (not (is_active u.account_status)) disabled_account) h1 λ u2 e2 h2.
        bind_ok (insert_session env value db) h2 λ after e3 h3.
          subst (λ d. IsKept d.sessions) (ap (λ p. p.1) (ok-injective h3))
            (insert_session-IsKept env value db blank alone k e3)

pub create_session-IsKept :
    (env : Env) (value : NewSession) (db : Db)
    → value.family_id ≡ ""
    → DrawsFamily env db
    → IsKept db.sessions
    → IsKept (create_session env value db).1.sessions
unfolding create_session
create_session-IsKept env value db blank alone k =
    elim (transaction_cases env (create_session_body env value) db) [
      | inl same ↦ subst (λ d. IsKept d.sessions) (sym same) k
      | inr (answer, after, done, end) ↦
          subst (λ d. IsKept d.sessions) (sym end)
            (create_session_body-IsKept env value db blank alone k done)
    ]

replay_detected-IsKept :
    (env : Env) (s : SessionRow) (u : UserRow) (now : Time) (db : Db)
    {answer : Result IdentityError User} {after : Db}
    → IsKept db.sessions
    → replay_detected env s u now db ≡ ok (answer, after)
    → IsKept after.sessions
unfolding replay_detected after_replay revoke_family_rows add_audit
replay_detected-IsKept env s u now db k h = bind_ok (attempt env revoke_family) h λ u1 e1 h1.
    bind_ok (attempt env insert_audit) h1 λ u2 e2 h2.
      subst (λ d. IsKept d.sessions) (ap (λ p. p.1) (ok-injective h2))
        (update-IsKept (in_family s.family_id) (revoked "REFRESH_REUSE" now) db.sessions
          (revoked-Ends "REFRESH_REUSE" now) k)

-- What a successful replacement says.
pub replace_session_ok :
    (env : Env) (s : SessionRow) (u : UserRow) (value : NewSession) (now : Time) (db : Db)
    {answer : Result IdentityError User} {after : Db}
    → replace_session env s u value now db ≡ ok (answer, after)
    → (is_live s ≡ true)
      × (mid : Db) × (insert_session env (successor s u value) db ≡ ok mid)
      × (after ≡ consume env s now mid)
      × (answer ≡ ok (user_of u))
unfolding replace_session
replace_session_ok env s u value now db h =
    let stale = is_set s.revoked_at || not (ltb now s.refresh_expires_at) in
    bind_ok (fail_if stale unauthenticated) h λ u1 e1 h1.
      bind_ok (fail_if (not (is_active u.account_status)) disabled_account) h1 λ u2 e2 h2.
        bind_ok (insert_session env (successor s u value) db) h2 λ mid e3 h3.
          bind_ok (attempt env consume_session) h3 λ u4 e4 h4. (
            live (passed _ unauthenticated e1),
            mid,
            e3,
            sym (ap (λ p. p.1) (ok-injective h4)),
            sym (ap (λ p. p.0) (ok-injective h4)),
          )
  where
    live : (is_set s.revoked_at || not (ltb now s.refresh_expires_at)) ≡ false → is_live s ≡ true
    live e = ground (arith, e)

replace_session-IsKept :
    (env : Env) (s : SessionRow) (u : UserRow) (value : NewSession) (now : Time) (db : Db)
    {answer : Result IdentityError User} {after : Db}
    → find_key SessionRow.id s.id db.sessions ≡ some s
    → s.family_id ≢ ""
    → IsKept db.sessions
    → replace_session env s u value now db ≡ ok (answer, after)
    → IsKept after.sessions
replace_session-IsKept env s u value now db here named k h =
    let (live, mid, inserted, end, answered) = replace_session_ok env s u value now db h in
    let done = insert_session_ok env (successor s u value) db inserted in
    let new = session_row env (successor s u value) in
    let family : new.family_id ≡ s.family_id = ground (arith, eq_iff s.family_id "", named) in
    subst (λ d. IsKept d.sessions) (sym end)
      (subst (λ d. IsKept (consume env s now d).sessions) (sym done.1)
        (replace-IsKept s new (rotated now (env.new_id add_session)) db.sessions here live done.0
          family named refl refl (rotated-Ends now (env.new_id add_session)) (λ r. refl) k))

rotate_body-IsKept :
    (env : Env) (presented : String) (value : NewSession) (now : Time) (db : Db)
    {answer : Result IdentityError User} {after : Db}
    → IsKept db.sessions
    → rotate_body env presented value now db ≡ ok (answer, after)
    → IsKept after.sessions
unfolding rotate_body rotate_session
rotate_body-IsKept env presented value now db k h =
    let by_refresh = find_key SessionRow.refresh_token_hash presented db.sessions in
    bind_ok (attempt env lock_refresh) h λ u1 e1 h1.
      bind_ok (or_fail by_refresh unauthenticated) h1 λ s e2 h2.
        bind_ok (or_fail (find_user s.user_id db) unauthenticated) h2 λ u e3 h3.
          let here = got by_refresh unauthenticated e2 in
          let found =
            found_by_key SessionRow.id (λ r. r.refresh_token_hash =s= presented) db.sessions s k.ids
              here in
          let name =
            All-found (λ s. s.family_id ≢ "") (λ r. r.refresh_token_hash =s= presented) db.sessions
              s k.named here in
          elim (Bool-cases (is_set s.refresh_consumed_at)) [
            | inl c ↦ replay_detected-IsKept env s u now db k (rw c at h3)
            | inr c ↦ replace_session-IsKept env s u value now db found name k (rw c at h3)
          ]

-- A rotation, however it ends, keeps the ids and token hashes of the sessions unique, no two sessions
-- of a family that are not revoked, and every session revoked whose refresh token is consumed.
pub rotate_refresh-IsKept :
    (env : Env) (presented : String) (value : NewSession) (now : Time) (db : Db)
    → IsKept db.sessions
    → IsKept (rotate_refresh env presented value now db).1.sessions
unfolding rotate_refresh
rotate_refresh-IsKept env presented value now db k =
    elim (transaction_cases env (rotate_body env presented value now) db) [
      | inl same ↦ subst (λ d. IsKept d.sessions) (sym same) k
      | inr (answer, after, done, end) ↦
          subst (λ d. IsKept d.sessions) (sym end)
            (rotate_body-IsKept env presented value now db k done)
    ]

touch-Ends : (now : Time) → Ends (λ s. record s { last_seen_at = some now })
touch-Ends now = record {
  id = λ s. refl;
  access = λ s. refl;
  refresh = λ s. refl;
  family = λ s. refl;
  dead = λ s e. e;
  spent = λ s h e. h e;
}

touched-IsKept :
    (env : Env) (hash : String) (now : Time) (db : Db) (answer : Result IdentityError Principal)
    → IsKept db.sessions
    → IsKept (touched env hash now db answer).sessions
touched-IsKept env hash now db (err e) k = k
touched-IsKept env hash now db (ok p) k =
    let after =
      update-IsKept (λ s. s.access_token_hash =s= hash) (λ s. record s { last_seen_at = some now })
        db.sessions (touch-Ends now) k in
    elim (statement_cases env touch_session (touch hash now) db) [
      | inl same ↦ subst (λ d. IsKept d.sessions) (sym same) k
      | inr same ↦ subst (λ d. IsKept d.sessions) (sym same) after
    ]

pub authenticate_access-IsKept :
    (env : Env) (hash : String) (now : Time) (db : Db)
    → IsKept db.sessions
    → IsKept (authenticate_access env hash now db).1.sessions
unfolding authenticate_access
authenticate_access-IsKept env hash now db k =
    touched-IsKept env hash now db (read_access env hash now db) k

pub audit_revoked_sessions :
    (env : Env) (family : String) (now : Time) (db : Db) (s : Option SessionRow)
    → (audit_revoked env family now db s).sessions ≡ db.sessions
unfolding add_audit
audit_revoked_sessions env family now db none = refl
audit_revoked_sessions env family now db (some s) = refl

pub revoke_family_call-IsKept :
    (env : Env) (family reason : String) (now : Time) (db : Db)
    → IsKept db.sessions
    → IsKept (revoke_family_call env family reason now db).1.sessions
unfolding revoke_family_call revoke_family_rows
revoke_family_call-IsKept env family reason now db k =
    let rows = revoke_family_rows family reason now db in
    let same =
      audit_revoked_sessions env family now rows (find_first (in_family family) db.sessions) in
    let after = subst IsKept (sym same) (
      update-IsKept (in_family family) (revoked reason now) db.sessions (revoked-Ends reason now)
        k) in
    let write : Db → Db = λ d.
      audit_revoked env family now (revoke_family_rows family reason now d)
        (find_first (in_family family) d.sessions) in
    elim (statement_cases env revoke_family write db) [
      | inl same ↦ subst (λ d. IsKept d.sessions) (sym same) k
      | inr same ↦ subst (λ d. IsKept d.sessions) (sym same) after
    ]
