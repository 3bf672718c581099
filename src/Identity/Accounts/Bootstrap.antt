-- ===== src/Identity/Accounts/Bootstrap.antt =====
-- There is one administrator.
use b46_ordering_app_backend.Base.{
  ◌≡◌, inl, inr, refl, sym, ◌∙◌, ap, String, true, some, [], ◌∷◌, ◌++◌, Result, ok, bind_ok,
  ok-injective, arith, eq_iff, Bool-cases, Option-cases, ◌=s=◌, find_first,
}
use b46_ordering_app_backend.Base.Rows.{find_first-snoc}
use b46_ordering_app_backend.Identity.Domain.{
  Time, role_admin, User, IdentityError, lock_bootstrap, find_admin, insert_audit, technical,
  insert_user, insert_identity,
}
use b46_ordering_app_backend.Identity.Tables.{Db, Env, UserRow, attempt}
use b46_ordering_app_backend.Identity.Transaction.{transaction_ok, transaction-Works, Works}
use b46_ordering_app_backend.Identity.Sessions.{user_of, add_audit}
use b46_ordering_app_backend.Identity.OAuth.{add_user, add_identity, new_user}
use b46_ordering_app_backend.Identity.OAuth.Added.{add_user_ok, add_identity_ok}
use b46_ordering_app_backend.Identity.Accounts.{
  has_role, bare_user_of, password_identity, bootstrap_new, bootstrap_with, bootstrap_body,
  bootstrap_admin,
}

-- What creating the administrator says.
bootstrap_new_ok :
    (env : Env) (name email hash : String) (now : Time) (db : Db)
    {answer : Result IdentityError User} {after : Db}
    → bootstrap_new env name email hash now db ≡ ok (answer, after)
    → (answer ≡ ok (user_of (new_user env name email role_admin)))
      × (after.users ≡ db.users ++ new_user env name email role_admin ∷ [])
unfolding bootstrap_new add_audit
bootstrap_new_ok env name email hash now db h =
    let u = new_user env name email role_admin in
    bind_ok (add_user env (technical insert_user) u db) h λ mid e1 h1.
      bind_ok (add_identity env (technical insert_identity) (password_identity u.id email hash) mid)
        h1
        λ named e2 h2. bind_ok (attempt env insert_audit) h2 λ u3 e3 h3.
          let added = add_user_ok env (technical insert_user) u db e1 in
          let linked =
            add_identity_ok env (technical insert_identity) (password_identity u.id email hash) mid
              e2 in
          (
            sym (ap (λ p. p.0) (ok-injective h3)),
            sym (ap (λ p. p.1.users) (ok-injective h3)) ∙ ap Db.users linked ∙ ap Db.users added.0,
          )

-- The administrator after a bootstrap: the one that was there, unchanged tables; or the new one.
pub bootstrap_admin_ok :
    (env : Env) (name email hash : String) (now : Time) (db : Db) {user : User}
    → (bootstrap_admin env name email hash now db).0 ≡ ok user
    → (u : UserRow) × (find_first
          (has_role role_admin)
          (bootstrap_admin env name email hash now db).1.users
        ≡ some u)
      × (u.normalized_email ≡ email)
      × (user ≡ bare_user_of u)
unfolding bootstrap_admin bootstrap_body bootstrap_with
bootstrap_admin_ok env name email hash now db {user} h0 =
    let (after, h, end) = transaction_ok env (bootstrap_body env name email hash now) db user h0 in
    bind_ok (attempt env lock_bootstrap) h λ u1 e1 h1.
      bind_ok (attempt env find_admin) h1 λ u2 e2 h2.
        elim (Option-cases (find_first (has_role role_admin) db.users)) [
          | inl free ↦
              let made = bootstrap_new_ok env name email hash now db (rw free at h2) in
              let u = new_user env name email role_admin in
              (
                u,
                ap (λ d. find_first (has_role role_admin) d.users) end
                    ∙ ap (find_first (has_role role_admin)) made.1
                    ∙ find_first-snoc (has_role role_admin) db.users u free refl,
                refl,
                ok-injective made.0,
              )
          | inr (u, there) ↦ elim (Bool-cases (u.normalized_email =s= email)) [
            | inr other ↦ absurd (ground (arith, there, other, h2))
            | inl same ↦
                let kept = ok-injective (rw (there, same) at h2) in
                (
                  u,
                  ap (λ d. find_first (has_role role_admin) d.users)
                        (end ∙ sym (ap (λ p. p.1) kept))
                      ∙ there,
                  (eq_iff u.normalized_email email).0 same,
                  sym (ok-injective (ap (λ p. p.0) kept)),
                )
          ]
        ]

repeated :
    (env : Env) (name email hash : String) (now : Time) (db : Db) (u : UserRow) (user : User)
    → Works env
    → find_first (has_role role_admin) db.users ≡ some u
    → u.normalized_email ≡ email
    → user ≡ bare_user_of u
    → bootstrap_admin env name email hash now db ≡ (ok user, db)
unfolding bootstrap_admin bootstrap_body bootstrap_with
repeated env name email hash now db u user works found address same =
    let test : (u.normalized_email =s= email) ≡ true =
      (eq_iff u.normalized_email email).1 address in
    let run : bootstrap_body env name email hash now db ≡ ok (ok user, db) =
      rw (works lock_bootstrap, works find_admin, found, test, same) in
    transaction-Works env (bootstrap_body env name email hash now) db (ok user) db works run

-- A bootstrap that is repeated for the same address answers with the same administrator and changes
-- nothing, whatever name and password it gives, when no step fails for a technical reason.
pub bootstrap_admin-again :
    (env again : Env) (name name' email hash hash' : String) (now later : Time) (db : Db)
    (user : User)
    → (bootstrap_admin env name email hash now db).0 ≡ ok user
    → Works again
    → bootstrap_admin again name' email hash' later (bootstrap_admin env name email hash now db).1
      ≡ (ok user, (bootstrap_admin env name email hash now db).1)
bootstrap_admin-again env again name name' email hash hash' now later db user h works =
    let (u, found, address, same) = bootstrap_admin_ok env name email hash now db h in
    repeated again name' email hash' later (bootstrap_admin env name email hash now db).1 u user
      works found address same
