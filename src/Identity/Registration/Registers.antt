-- ===== src/Identity/Registration/Registers.antt =====
-- A registration that was begun can be finished.
use b46_ordering_app_backend.Base.{
  ◌≡◌, inl, inr, refl, sym, ◌∙◌, ap, subst, String, Bool, true, false, not, ◌&&◌, Option, none,
  some, List, [], ◌∷◌, ◌++◌, ok, bind_ok, got, ok-injective, arith, eq_refl, or_fail, Bool-cases,
  Option-cases, ◌=s=◌, ltb, find_first, update_where,
}
use b46_ordering_app_backend.Base.Rows.{find_first-snoc}
use b46_ordering_app_backend.Identity.Domain.{
  Time, PendingRegistration, technical, check_owner, store_pending, load_pending, consume_pending,
  insert_user, insert_identity, role_customer,
}
use b46_ordering_app_backend.Identity.Tables.{Db, Env, UserRow, PendingRow, is_set, attempt}
use b46_ordering_app_backend.Identity.Transaction.{transaction_ok, transaction-Works, Works}
use b46_ordering_app_backend.Identity.Sessions.{find_user, user_of}
use b46_ordering_app_backend.Identity.OAuth.{
  add_user, add_identity, new_user, find_email_owner, identity_taken,
}
use b46_ordering_app_backend.Identity.Accounts.{password_identity}
use b46_ordering_app_backend.Identity.Registration.{
  registration_limits, count_request, pending_row, put_pending, begin_body, begin_registration,
  find_pending, set_pending, used_up, verify_body, verify_registration, check_code, accept_code,
  window_of, registration_email_hourly_limit, registration_ip_hourly_limit,
}

abbrev foreign : PendingRow → PendingRow → Bool
foreign row r = r.id =s= row.id && not (r.normalized_email =s= row.normalized_email)

abbrev same_address : PendingRow → PendingRow → Bool
same_address row r = r.normalized_email =s= row.normalized_email

replaced_found :
    (row : PendingRow) (rows : List PendingRow)
    → find_first (foreign row) rows ≡ none
    → is_set (find_first (same_address row) rows) ≡ true
    → find_first (λ r. r.id =s= row.id) (update_where (same_address row) (λ r. row) rows) ≡ some row
unfolding find_first update_where
replaced_found row [] clear there = absurd (cc)
replaced_found row (x ∷ rows) clear there = elim (Bool-cases (same_address row x)) [
  | inl e ↦ rw (e, eq_refl row.id)
  | inr e ↦
      let other : (x.id =s= row.id) ≡ false = ground (arith, e, clear) in
      rw (e, other)
        (replaced_found row rows (ground (arith, e, other, clear)) (ground (arith, e, there)))
]

absent_found :
    (row : PendingRow) (rows : List PendingRow)
    → find_first (foreign row) rows ≡ none
    → is_set (find_first (same_address row) rows) ≡ false
    → find_first (λ r. r.id =s= row.id) rows ≡ none
unfolding find_first
absent_found row [] clear none_there = refl
absent_found row (x ∷ rows) clear none_there = elim (Bool-cases (same_address row x)) [
  | inl e ↦ absurd (ground (arith, e, none_there))
  | inr e ↦
      let other : (x.id =s= row.id) ≡ false = ground (arith, e, clear) in
      rw other
        (absent_found row rows (ground (arith, e, other, clear)) (ground (arith, e, none_there)))
]

-- A challenge that was stored is found by its id.
pub put_pending_found :
    (row : PendingRow) (rows : List PendingRow) {after : List PendingRow}
    → put_pending row rows ≡ some after
    → find_first (λ r. r.id =s= row.id) after ≡ some row
unfolding put_pending
put_pending_found row rows {after} h = elim (Option-cases (find_first (foreign row) rows)) [
  | inr (x, e) ↦ absurd (ground (arith, e, h))
  | inl clear ↦ elim (Bool-cases (is_set (find_first (same_address row) rows))) [
    | inl there ↦
        subst (λ l. find_first (λ r. r.id =s= row.id) l ≡ some row)
          (stored (update_where (same_address row) (λ r. row) rows) (rw (clear, there) at h))
          (replaced_found row rows clear there)
    | inr free ↦
        subst (λ l. find_first (λ r. r.id =s= row.id) l ≡ some row)
          (stored (rows ++ row ∷ []) (rw (clear, free) at h))
          (find_first-snoc (λ r. r.id =s= row.id) rows row (absent_found row rows clear free)
            (eq_refl row.id))
  ]
]
  where
    stored :
        (l : List PendingRow) → ◌≡◌ {A = Option (List PendingRow)} (some l) (some after) → l ≡ after
    stored l h = cc

-- What a registration for an address without an account says.
begin_registration_ok :
    (env : Env) (value : PendingRegistration) (ip_key : String) (now : Time) (db : Db)
    → (begin_registration env value ip_key now db).0 ≡ ok true
    → (find_pending value.id (begin_registration env value ip_key now db).1
        ≡ some (pending_row value false now))
      × ((begin_registration env value ip_key now db).1.users ≡ db.users)
      × ((begin_registration env value ip_key now db).1.identities ≡ db.identities)
      × (find_email_owner value.email db ≡ none)
unfolding begin_registration begin_body registration_limits
begin_registration_ok env value ip_key now db h0 =
    let (after, h, end) = transaction_ok env (begin_body env value ip_key now) db true h0 in
    bind_ok (registration_limits env value.email_rate_key ip_key now db) h λ limited e1 h1.
      let owned = is_set (find_email_owner value.email limited) in
      bind_ok (attempt env check_owner) h1 λ u2 e2 h2.
        bind_ok (attempt env store_pending) h2 λ u3 e3 h3.
          bind_ok
            (or_fail (put_pending (pending_row value owned now) limited.pending)
              (technical store_pending))
            h3
            λ rows e4 h4.
              let same = limits_keep env value.email_rate_key ip_key now db e1 in
              let put = got _ (technical store_pending) e4 in
              let eligible = ok-injective (ap (λ p. p.0) (ok-injective h4)) in
              let unowned : owned ≡ false = ground (arith, eligible) in
              let found = put_pending_found (pending_row value owned now) limited.pending put in
              let end' = end ∙ sym (ap (λ p. p.1) (ok-injective h4)) in
              (
                ap (find_pending value.id) end'
                    ∙ found
                    ∙ ap (λ b. some (pending_row value b now)) unowned,
                ap Db.users end' ∙ same.0,
                ap Db.identities end' ∙ same.1,
                ap (find_first (λ u. u.normalized_email =s= value.email)) (sym same.0)
                    ∙ unset (find_email_owner value.email limited) unowned,
              )
  where
    unset : (o : Option UserRow) → is_set o ≡ false → o ≡ none
    unset none e = refl
    unset (some a) e = cc

    limits_keep :
        (env : Env) (email_key ip_key : String) (now : Time) (db : Db) {limited : Db}
        → registration_limits env email_key ip_key now db ≡ ok limited
        → (limited.users ≡ db.users) × (limited.identities ≡ db.identities)
    limits_keep env email_key ip_key now db h =
        bind_ok
          (count_request env email_key registration_email_hourly_limit (window_of now) db.buckets) h
          λ mid e1 h1.
            bind_ok (count_request env ip_key registration_ip_hourly_limit (window_of now) mid) h1
              λ last e2 h2.
                (sym (ap Db.users (ok-injective h2)), sym (ap Db.identities (ok-injective h2)))

finished :
    (env : Env) (value : PendingRegistration) (now later : Time) (db : Db)
    → Works env
    → ltb later value.expires_at ≡ true
    → find_pending value.id db ≡ some (pending_row value false now)
    → find_user (env.new_id insert_user) db ≡ none
    → find_email_owner value.email db ≡ none
    → identity_taken
        (password_identity (env.new_id insert_user) value.email value.password_hash)
        db.identities
      ≡ false
    → (verify_registration env value.id value.code_hash later db).0
      ≡ ok (user_of (new_user env value.name value.email role_customer))
unfolding verify_registration verify_body check_code accept_code add_user add_identity
finished env value now later db works early found new_id unowned free =
    let u = new_user env value.name value.email role_customer in
    let i = password_identity u.id value.email value.password_hash in
    let named : Db = record db {
      users = db.users ++ u ∷ [];
      identities = db.identities ++ i ∷ [];
    } in
    let run : verify_body env value.id value.code_hash later db
        ≡ ok (ok (user_of u), set_pending value.id (used_up later) named) =
      rw (
        works load_pending,
        found,
        early,
        eq_refl value.code_hash,
        works insert_user,
        new_id,
        unowned,
        works insert_identity,
        free,
        works consume_pending,
      ) in
    ap (λ p. p.0)
      (transaction-Works env (verify_body env value.id value.code_hash later) db (ok (user_of u))
        (set_pending value.id (used_up later) named) works run)

-- Registering works: a registration that was begun for an address without an account is finished by its
-- code before it expires, when no step fails for a technical reason, the drawn user id is new and the
-- address is no other login's; the answer is the new customer.
pub begin_registration-verifies :
    (env again : Env) (value : PendingRegistration) (ip_key : String) (now later : Time) (db : Db)
    → (begin_registration env value ip_key now db).0 ≡ ok true
    → Works again
    → ltb later value.expires_at ≡ true
    → find_user (again.new_id insert_user) db ≡ none
    → identity_taken
        (password_identity (again.new_id insert_user) value.email value.password_hash)
        db.identities
      ≡ false
    → (verify_registration again value.id value.code_hash later
        (begin_registration env value ip_key now db).1).0
      ≡ ok (user_of (new_user again value.name value.email role_customer))
begin_registration-verifies env again value ip_key now later db h works early new_id free =
    let (found, users, identities, unowned) = begin_registration_ok env value ip_key now db h in
    finished again value now later (begin_registration env value ip_key now db).1 works early found
      (ap (find_first (λ u. u.id =s= again.new_id insert_user)) users ∙ new_id)
      (ap (find_first (λ u. u.normalized_email =s= value.email)) users ∙ unowned)
      (ap
          (identity_taken
            (password_identity (again.new_id insert_user) value.email value.password_hash))
          identities
        ∙ free)
