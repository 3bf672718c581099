-- ===== src/Identity/Registration/Codes.antt =====
-- Verification codes: a code works once.
use b46_ordering_app_backend.Base.{
  ◌≡◌, ◌≢◌, refl, sym, ◌∙◌, ap, subst, inl, inr, String, Bool, true, false, not, ◌||◌, Option, none,
  some, [], ◌∷◌, ◌++◌, ok, bind_ok, passed, got, ok-injective, arith, eq_iff, eq_refl, Bool-cases,
  ◌=s=◌, ltb, leb, fail_if, or_fail,
}
use b46_ordering_app_backend.Base.Keys.{find_key, find_key-update, find_key_sound}
use b46_ordering_app_backend.Identity.Domain.{
  Time, User, invalid_registration, load_pending, count_attempt, consume_pending, role_customer,
  technical, insert_identity,
}
use b46_ordering_app_backend.Identity.Tables.{Db, Env, PendingRow, is_set, attempt}
use b46_ordering_app_backend.Identity.Transaction.{transaction_ok, transaction_cases}
use b46_ordering_app_backend.Identity.Sessions.{user_of}
use b46_ordering_app_backend.Identity.OAuth.Added.{add_user_ok, add_identity_ok}
use b46_ordering_app_backend.Identity.OAuth.{add_user, add_identity, new_user}
use b46_ordering_app_backend.Identity.Accounts.{password_identity}
use b46_ordering_app_backend.Identity.Registration.{
  find_pending, set_pending, used_up, refuse_code, accept_code, check_code, verify_body,
  verify_registration,
}

-- The challenge is open: unused, not expired, and tried less than five times.
abbrev pub is_closed : Time → PendingRow → Bool
is_closed now r = is_set r.consumed_at || not (ltb now r.expires_at) || leb 5 r.attempt_count

never_accepts :
    (env : Env) (id : String) (db : Db) (user : User) (after : Db)
    → refuse_code env id db ≢ ok (ok user, after)
unfolding refuse_code
never_accepts env id db user after h =
    bind_ok (attempt env count_attempt) h λ u e h1. absurd (cc (ap (λ p. p.0) (ok-injective h1)))

accepted_code :
    (env : Env) (r : PendingRow) (code_hash : String) (now : Time) (db : Db) (o : Option String)
    {user : User} {after : Db}
    → check_code env r code_hash now db o ≡ ok (ok user, after)
    → (hash : String) × (o ≡ some hash)
      × (r.code_hash ≡ code_hash)
      × (r.eligible ≡ true)
      × (accept_code env r hash now db ≡ ok (ok user, after))
unfolding check_code
accepted_code env r code_hash now db none {user} {after} h =
    absurd (never_accepts env r.id db user after h)
accepted_code env r code_hash now db (some hash) {user} {after} h =
    elim (Bool-cases (not (r.code_hash =s= code_hash) || not r.eligible)) [
      | inl e ↦ absurd (never_accepts env r.id db user after (rw e at h))
      | inr e ↦ (
        hash,
        refl,
        ground (arith, e, eq_iff r.code_hash code_hash),
        ground (arith, e),
        rw e at h,
      )
    ]

-- What a verification that answers with a user says.
pub verify_registration_ok :
    (env : Env) (id code_hash : String) (now : Time) (db : Db) {user : User}
    → (verify_registration env id code_hash now db).0 ≡ ok user
    → (r : PendingRow) × (hash : String) × (mid : Db) × (named : Db) × (find_pending id db ≡ some r)
      × (is_closed now r ≡ false)
      × (r.code_hash ≡ code_hash)
      × (r.eligible ≡ true)
      × (r.password_hash ≡ some hash)
      × (add_user env invalid_registration
            (new_user env r.display_name r.normalized_email role_customer)
            db
          ≡ ok mid)
      × (add_identity env
            (technical insert_identity)
            (password_identity
              (new_user env r.display_name r.normalized_email role_customer).id
              r.normalized_email
              hash)
            mid
          ≡ ok named)
      × ((verify_registration env id code_hash now db).1 ≡ set_pending r.id (used_up now) named)
      × (user ≡ user_of (new_user env r.display_name r.normalized_email role_customer))
unfolding verify_registration verify_body accept_code
verify_registration_ok env id code_hash now db {user} h0 =
    let (after, h, end) = transaction_ok env (verify_body env id code_hash now) db user h0 in
    bind_ok (attempt env load_pending) h λ u1 e1 h1.
      bind_ok (or_fail (find_pending id db) invalid_registration) h1 λ r e2 h2.
        bind_ok (fail_if (is_closed now r) invalid_registration) h2 λ u3 e3 h3.
          let (hash, stored, right, may, run) =
            accepted_code env r code_hash now db r.password_hash h3 in
          let u = new_user env r.display_name r.normalized_email role_customer in
          bind_ok (add_user env invalid_registration u db) run λ mid e4 h4.
            bind_ok
              (add_identity env (technical insert_identity)
                (password_identity u.id r.normalized_email hash) mid)
              h4
              λ named e5 h5. bind_ok (attempt env consume_pending) h5 λ u6 e6 h6. (
                r,
                hash,
                mid,
                named,
                got _ invalid_registration e2,
                passed _ invalid_registration e3,
                right,
                may,
                stored,
                e4,
                e5,
                end ∙ sym (ap (λ p. p.1) (ok-injective h6)),
                sym (ok-injective (ap (λ p. p.0) (ok-injective h6))),
              )

-- The row of a challenge after a change of it.
pub set_pending_found :
    (id : String) (f : PendingRow → PendingRow) (db : Db) (r : PendingRow)
    → ((x : PendingRow) → (f x).id ≡ x.id)
    → find_pending id db ≡ some r
    → find_pending id (set_pending id f db) ≡ some (f r)
set_pending_found id f db r same here =
    let key = find_key_sound PendingRow.id id db.pending here in
    find_key-update PendingRow.id id (λ x. x.id =s= id) f same db.pending
    ∙ (rw (here, key, eq_refl id))

-- A closed challenge answers with no user and changes nothing.
pub closed_refuses :
    (env : Env) (id code_hash : String) (now : Time) (db : Db) (r : PendingRow)
    → find_pending id db ≡ some r
    → is_closed now r ≡ true
    → (verify_registration env id code_hash now db).1 ≡ db
unfolding verify_registration verify_body
closed_refuses env id code_hash now db r here closed =
    elim (transaction_cases env (verify_body env id code_hash now) db) [
      | inl same ↦ same
      | inr (answer, after, done, end) ↦ bind_ok (attempt env load_pending) done λ u1 e1 h1.
          bind_ok (or_fail (find_pending id db) invalid_registration) h1 λ r' e2 h2.
            bind_ok (fail_if (is_closed now r') invalid_registration) h2 λ u3 e3 h3.
              let open_row = passed _ invalid_registration e3 in
              let found = got _ invalid_registration e2 in
              absurd (cc (found, here, closed, open_row))
    ]

pub closed_never :
    (env : Env) (id code_hash : String) (now : Time) (db : Db) (r : PendingRow) (user : User)
    → find_pending id db ≡ some r
    → is_closed now r ≡ true
    → (verify_registration env id code_hash now db).0 ≢ ok user
closed_never env id code_hash now db r user here closed h =
    let whole = verify_registration_ok env id code_hash now db h in
    let found = whole.4 in let open_row = whole.5 in absurd (cc (found, here, closed, open_row))

-- A code works once: after a verification that answered with a user, the tables have that account and
-- no other new one, and no later verification of the challenge answers with a user.
pub verify_registration-once :
    (env again : Env) (id code_hash code_hash' : String) (now later : Time) (db : Db)
    (user other : User)
    → (verify_registration env id code_hash now db).0 ≡ ok user
    → (r : PendingRow) × (find_pending id db ≡ some r)
      × (r.code_hash ≡ code_hash)
      × ((verify_registration env id code_hash now db).1.users
          ≡ db.users ++ new_user env r.display_name r.normalized_email role_customer ∷ [])
      × ((verify_registration again id code_hash' later
            (verify_registration env id code_hash now db).1).0
          ≢ ok other)
verify_registration-once env again id code_hash code_hash' now later db user other h =
    let (r, hash, mid, named, found, open_row, right, may, stored, added, linked, end, same) =
      verify_registration_ok env id code_hash now db h in
    let u = new_user env r.display_name r.normalized_email role_customer in
    let mid_is = add_user_ok env invalid_registration u db added in
    let named_is =
      add_identity_ok env (technical insert_identity)
        (password_identity u.id r.normalized_email hash) mid linked in
    let key = find_key_sound PendingRow.id id db.pending found in
    let mid_pending : mid.pending ≡ db.pending = ap Db.pending mid_is.0 in
    let mid_users : mid.users ≡ db.users ++ u ∷ [] = ap Db.users mid_is.0 in
    let named_pending : named.pending ≡ db.pending = ap Db.pending named_is ∙ mid_pending in
    let named_users : named.users ≡ db.users ++ u ∷ [] = ap Db.users named_is ∙ mid_users in
    let found_named : find_pending id named ≡ some r =
      ap (λ rows. find_key PendingRow.id id rows) named_pending ∙ found in
    let used : find_pending id (set_pending id (used_up now) named) ≡ some (used_up now r) =
      set_pending_found id (used_up now) named r (λ x. refl) found_named in
    let end' = end ∙ ap (λ k. set_pending k (used_up now) named) key in
    (
      r,
      found,
      right,
      ap Db.users end' ∙ named_users,
      subst (λ d. (verify_registration again id code_hash' later d).0 ≢ ok other) (sym end')
          (closed_never again id code_hash' later (set_pending id (used_up now) named)
            (used_up now r) other used refl),
    )
