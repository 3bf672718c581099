-- ===== src/Identity/Sessions/Replay.antt =====
-- What presenting a refresh token twice does.
use b46_ordering_app_backend.Base.{
  ◌≡◌, ◌≢◌, inl, inr, refl, sym, ◌∙◌, subst, ap, String, Bool, true, false, not, ◌&&◌, some, List,
  [], ◌∷◌, ◌++◌, ok, err, bind_ok, got, passed, arith, eq_iff, ok-injective, or_fail, fail_if,
  Bool-cases, ◌=s=◌, keep, find_first, eq_refl,
}
use b46_ordering_app_backend.Base.Keys.{
  Absent, find_key, find_key-Absent, find_key-snoc, find_key-update, found_passes,
}
use b46_ordering_app_backend.Base.Rows.{keep-update-none, keep-none-found}
use b46_ordering_app_backend.Identity.Domain.{
  Time, NewSession, User, Principal, unauthenticated, disabled_account, refresh_reuse, query_access,
  lock_refresh, revoke_family, insert_audit, add_session, is_active,
}
use b46_ordering_app_backend.Identity.Tables.{Db, Env, UserRow, SessionRow, is_set, attempt}
use b46_ordering_app_backend.Identity.Transaction.{transaction_ok, transaction-Works, Works}
use b46_ordering_app_backend.Identity.Sessions.{
  session_row, insert_session, authenticate_access, read_access, is_open, is_owner, principal_of,
  after_replay, revoke_family_rows, add_audit, in_family, revoked, replay_detected, successor,
  rotated, rotate_session, rotate_body, rotate_refresh, find_user, user_of, consume,
}
use b46_ordering_app_backend.Identity.Sessions.Invariant.{is_live, insert_session_ok}
use b46_ordering_app_backend.Identity.Sessions.Keeps.{replace_session_ok}

-- The sessions of a family that are not revoked.
unfoldable pub live_in : String → Db → List SessionRow
live_in family db = keep (λ s. in_family family s && is_live s) db.sessions

-- What an accepted access token says: its session is open, and its user may sign in.
pub read_access_ok :
    (env : Env) (hash : String) (now : Time) (db : Db) {p : Principal}
    → read_access env hash now db ≡ ok p
    → (s : SessionRow) × (u : UserRow) × (find_first (is_open hash now) db.sessions ≡ some s)
      × (find_first (is_owner s.user_id) db.users ≡ some u)
      × (is_active u.account_status ≡ true)
      × (p ≡ principal_of s u)
unfolding read_access
read_access_ok env hash now db h =
    let open_row = find_first (is_open hash now) db.sessions in
    bind_ok (attempt env query_access) h λ u1 e1 h1.
      bind_ok (or_fail open_row unauthenticated) h1 λ s e2 h2.
        bind_ok (or_fail (find_first (is_owner s.user_id) db.users) unauthenticated) h2 λ u e3 h3.
          bind_ok (fail_if (not (is_active u.account_status)) disabled_account) h3 λ u4 e4 h4. (
            s,
            u,
            got _ unauthenticated e2,
            got _ unauthenticated e3,
            still_active u.account_status (passed _ disabled_account e4),
            sym (ok-injective h4),
          )
  where
    still_active : (a : _) → not (is_active a) ≡ false → is_active a ≡ true
    still_active a e = ground (arith, e)

-- No access token of a family without live sessions is accepted.
pub live_in-none :
    (env : Env) (hash family : String) (now : Time) (db : Db) (p : Principal)
    → live_in family db ≡ []
    → (authenticate_access env hash now db).0 ≡ ok p
    → p.family_id ≢ family
unfolding live_in authenticate_access
live_in-none env hash family now db p none_live h =
    let (s, u, found, owner, active, same) = read_access_ok env hash now db h in
    let live = found_passes (is_open hash now) db.sessions s found in
    let out =
      keep-none-found (λ s. in_family family s && is_live s) (is_open hash now) db.sessions s
        none_live found in
    λ e. ground (arith, live, out, same, e, eq_iff s.family_id family)

after_replay-shut :
    (env : Env) (s : SessionRow) (u : UserRow) (now : Time) (db : Db)
    → live_in s.family_id (after_replay env s u now db) ≡ []
unfolding live_in after_replay revoke_family_rows add_audit
after_replay-shut env s u now db =
    keep-update-none (λ r. in_family s.family_id r && is_live r) (in_family s.family_id)
      (revoked "REFRESH_REUSE" now) (λ r e. ground (arith, e)) (λ r e. ground (arith, e))
      db.sessions

-- A consumed token is presented: the family has no live session left.
replay_step :
    (env : Env) (token : String) (value : NewSession) (now : Time) (db : Db) (s : SessionRow)
    (u : UserRow)
    → Works env
    → find_key SessionRow.refresh_token_hash token db.sessions ≡ some s
    → find_user s.user_id db ≡ some u
    → is_set s.refresh_consumed_at ≡ true
    → ((rotate_refresh env token value now db).0 ≡ err refresh_reuse)
      × (live_in s.family_id (rotate_refresh env token value now db).1 ≡ [])
unfolding rotate_refresh rotate_body rotate_session replay_detected
replay_step env token value now db s u works here owner used =
    let after = after_replay env s u now db in
    let run : rotate_body env token value now db ≡ ok (err refresh_reuse, after) =
      rw (works lock_refresh, here, owner, used, works revoke_family, works insert_audit) in
    let whole =
      transaction-Works env (rotate_body env token value now) db (err refresh_reuse) after works
        run in
    (
      ap (λ p. p.0) whole,
      subst (λ d. live_in s.family_id d ≡ []) (sym (ap (λ p. p.1) whole))
          (after_replay-shut env s u now db),
    )

-- What a rotation that answers with a user says.
pub rotate_refresh_ok :
    (env : Env) (token : String) (value : NewSession) (now : Time) (db : Db) {user : User}
    → (rotate_refresh env token value now db).0 ≡ ok user
    → (s : SessionRow) × (u : UserRow) × (mid : Db) × (find_key SessionRow.refresh_token_hash token
          db.sessions
        ≡ some s)
      × (find_user s.user_id db ≡ some u)
      × (is_live s ≡ true)
      × (insert_session env (successor s u value) db ≡ ok mid)
      × ((rotate_refresh env token value now db).1 ≡ consume env s now mid)
      × (user ≡ user_of u)
unfolding rotate_refresh rotate_body rotate_session replay_detected
rotate_refresh_ok env token value now db {user} h0 =
    let (after, h, end) = transaction_ok env (rotate_body env token value now) db user h0 in
    let by_refresh = find_key SessionRow.refresh_token_hash token db.sessions in
    bind_ok (attempt env lock_refresh) h λ u1 e1 h1.
      bind_ok (or_fail by_refresh unauthenticated) h1 λ s e2 h2.
        bind_ok (or_fail (find_user s.user_id db) unauthenticated) h2 λ u e3 h3.
          elim (Bool-cases (is_set s.refresh_consumed_at)) [
            | inl c ↦ bind_ok (attempt env revoke_family) (rw c at h3) λ u4 e4 h4.
                bind_ok (attempt env insert_audit) h4
                  λ u5 e5 h5. absurd (cc (ap (λ p. p.0) (ok-injective h5)))
            | inr c ↦
                let (live, mid, inserted, same, answered) =
                  replace_session_ok env s u value now db (rw c at h3) in
                (
                  s,
                  u,
                  mid,
                  got by_refresh unauthenticated e2,
                  got _ unauthenticated e3,
                  live,
                  inserted,
                  end ∙ same,
                  ok-injective answered,
                )
          ]

-- The presented token after the rotation: it is the same session's, and it is consumed.
rotated_found :
    (env : Env) (token : String) (now : Time) (db : Db) (s : SessionRow) (new : SessionRow)
    → find_key SessionRow.refresh_token_hash token db.sessions ≡ some s
    → Absent SessionRow.refresh_token_hash new.refresh_token_hash db.sessions
    → find_key SessionRow.refresh_token_hash token
        (consume env s now (record db { sessions = db.sessions ++ new ∷ [] })).sessions
      ≡ some (rotated now (env.new_id add_session) s)
rotated_found env token now db s new here free =
    let key = SessionRow.refresh_token_hash in
    let f = rotated now (env.new_id add_session) in
    let p : SessionRow → Bool = λ r. r.id =s= s.id in
    let changed_row = find_key-update key token p f (λ r. refl) (db.sessions ++ new ∷ []) in
    let added = find_key-snoc key token db.sessions new free in
    let other : (new.refresh_token_hash =s= token) ≡ false =
      elim (Bool-cases (new.refresh_token_hash =s= token)) [
        | inr e ↦ e
        | inl e ↦
            let gone = find_key-Absent key new.refresh_token_hash db.sessions free in
            absurd (cc (gone, here, (eq_iff new.refresh_token_hash token).0 e))
      ] in
    changed_row ∙ (rw (added, other, here, eq_refl s.id))

-- A refresh token works once. After a rotation that answered with a user, presenting the same token
-- again, at any time and with any replacement, is answered with refresh_reuse when no step fails
-- for a technical reason, and leaves no session of its family that is not revoked.
pub rotate_refresh-twice :
    (env again : Env) (token : String) (value value' : NewSession) (now later : Time) (db : Db)
    (user : User)
    → (rotate_refresh env token value now db).0 ≡ ok user
    → Works again
    → (s : SessionRow) × (find_key SessionRow.refresh_token_hash token db.sessions ≡ some s)
      × ((rotate_refresh again token value' later (rotate_refresh env token value now db).1).0
          ≡ err refresh_reuse)
      × (live_in s.family_id
            (rotate_refresh again token value' later (rotate_refresh env token value now db).1).1
          ≡ [])
rotate_refresh-twice env again token value value' now later db user h works =
    let (s, u, mid, here, owner, live, inserted, end, same) =
      rotate_refresh_ok env token value now db h in
    let (free, added) = insert_session_ok env (successor s u value) db inserted in
    let found : find_key SessionRow.refresh_token_hash token (consume env s now mid).sessions
        ≡ some (rotated now (env.new_id add_session) s) =
      subst
        (λ d.
          find_key SessionRow.refresh_token_hash token (consume env s now d).sessions
          ≡ some (rotated now (env.new_id add_session) s))
        (sym added)
        (rotated_found env token now db s (session_row env (successor s u value)) here free.2) in
    let owned : find_user s.user_id (consume env s now mid) ≡ some u =
      subst (λ d. find_user s.user_id (consume env s now d) ≡ some u) (sym added) owner in
    let again_used =
      replay_step again token value' later (consume env s now mid)
        (rotated now (env.new_id add_session) s) u works found owned refl in
    (
      s,
      here,
      subst (λ d. (rotate_refresh again token value' later d).0 ≡ err refresh_reuse) (sym end)
          again_used.0,
      subst (λ d. live_in s.family_id (rotate_refresh again token value' later d).1 ≡ []) (sym end)
          again_used.1,
    )
