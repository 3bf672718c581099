-- ===== src/Identity/Service/Logout.antt =====
-- Logging out: the session is over.
use b46_ordering_app_backend.Base.{
  ◌≡◌, refl, ◌≢◌, ◌∙◌, ap, subst, String, ◌&&◌, [], Result, ok, err, ok-injective, arith,
  find_first, keep,
}
use b46_ordering_app_backend.Identity.Domain.{
  Time, Principal, IdentityError, wrapped, revoke_family,
}
use b46_ordering_app_backend.Identity.Tables.{Db, Env}
use b46_ordering_app_backend.Identity.Transaction.{Works}
use b46_ordering_app_backend.Identity.Sessions
use b46_ordering_app_backend.Base.Rows.{keep-update-none}
use b46_ordering_app_backend.Identity.Sessions.Invariant.{is_live}
use b46_ordering_app_backend.Identity.Sessions.Keeps.{audit_revoked_sessions}
use b46_ordering_app_backend.Identity.Sessions.Replay.{live_in, live_in-none}
use b46_ordering_app_backend.Identity.Service.{World, authenticate, logout, logged_out}
use b46_ordering_app_backend.Identity.Service.Outcomes.{translated_tables, translated_value}

-- The end of a logout: nothing is left of the session's family, whatever the audit says.
revoked_shut :
    (env : Env) (family reason : String) (now : Time) (db : Db)
    → Works env
    → live_in family (Sessions.revoke_family_call env family reason now db).1 ≡ []
unfolding Sessions.revoke_family_call Sessions.revoke_family_rows live_in
revoked_shut env family reason now db works =
    let d = Sessions.revoke_family_rows family reason now db in
    let audited =
      audit_revoked_sessions env family now d
        (find_first (Sessions.in_family family) db.sessions) in
    rw (works revoke_family) (
      ap (keep (λ s. Sessions.in_family family s && is_live s)) audited
      ∙ keep-update-none (λ s. Sessions.in_family family s && is_live s) (Sessions.in_family family)
          (Sessions.revoked reason now) (λ s e. ground (arith, e)) (λ s e. ground (arith, e))
          db.sessions)

revoke_done :
    (w : World) (q : Principal) (d : Db)
    → Works (w.store 1)
    → (Sessions.revoke_family_call (w.store 1) q.family_id "LOGOUT" (w.clock 1) d).0 ≡ ok tt
unfolding Sessions.revoke_family_call
revoke_done w q d works = rw (works revoke_family)

logged_out_shut :
    (w : World) (p : Principal) (r : Result IdentityError Principal × Db)
    → r.0 ≡ ok p
    → Works (w.store 1)
    → ((logged_out w r).0 ≡ ok tt) × (live_in p.family_id (logged_out w r).1 ≡ [])
logged_out_shut w p (err e, d) h works = absurd (cc)
logged_out_shut w p (ok q, d) h works =
    let revoke = Sessions.revoke_family_call (w.store 1) q.family_id "LOGOUT" (w.clock 1) d in
    let shut = revoked_shut (w.store 1) q.family_id "LOGOUT" (w.clock 1) d works in
    (
      translated_value (wrapped revoke_family) revoke (revoke_done w q d works),
      subst (λ f. live_in f (logged_out w (ok q, d)).1 ≡ [])
          (ap Principal.family_id (ok-injective h))
          (ap (live_in q.family_id) (translated_tables (wrapped revoke_family) revoke) ∙ shut),
    )

-- A logout ends the session: when its token was accepted and the revocation does not fail, the call
-- succeeds, nothing of the session's family is live, and no token of the family is accepted any more.
pub logout-ends :
    (w : World) (env : Env) (access_token hash : String) (later : Time) (db : Db) (p p' : Principal)
    → (authenticate w access_token db).0 ≡ ok p
    → Works (w.store 1)
    → ((logout w access_token db).0 ≡ ok tt)
      × (live_in p.family_id (logout w access_token db).1 ≡ [])
      × ((Sessions.authenticate_access env hash later (logout w access_token db).1).0
          ≢ ok (record p' { family_id = p.family_id }))
unfolding logout
logout-ends w env access_token hash later db p p' h works =
    let (done, shut) = logged_out_shut w p (authenticate w access_token db) h works in
    (
      done,
      shut,
      (λ accepted.
          live_in-none env hash p.family_id later (logout w access_token db).1
            (record p' { family_id = p.family_id }) shut accepted refl),
    )
