-- ===== src/Identity/OAuth/Added.antt =====
-- What inserting users and login identities says.
use b46_ordering_app_backend.Base.{
  ◌≡◌, sym, ok, bind_ok, passed, ok-injective, ◌∷◌, [], ◌++◌, fail_if, ◌||◌, false, none, Option,
  some, arith,
}
use b46_ordering_app_backend.Base.Keys.{Absent, Absent-find_key}
use b46_ordering_app_backend.Identity.Domain.{IdentityError, insert_user, insert_identity}
use b46_ordering_app_backend.Identity.Tables.{Db, Env, UserRow, IdentityRow, is_set, attempt}
use b46_ordering_app_backend.Identity.Sessions.{find_user}
use b46_ordering_app_backend.Identity.OAuth.{
  add_user, add_identity, find_email_owner, identity_taken,
}

unset : {A : Type 0} (o : Option A) → is_set o ≡ false → o ≡ none
unset none e = cc
unset (some a) e = cc

-- A user was inserted: neither the id nor the address was there.
pub add_user_ok :
    (env : Env) (taken : IdentityError) (row : UserRow) (db : Db) {after : Db}
    → add_user env taken row db ≡ ok after
    → (after ≡ record db { users = db.users ++ row ∷ [] })
      × Absent UserRow.id row.id db.users
      × Absent UserRow.normalized_email row.normalized_email db.users
unfolding add_user
add_user_ok env taken row db h =
    let there = is_set (find_user row.id db) || is_set (find_email_owner row.normalized_email db) in
    bind_ok (attempt env insert_user) h λ u1 e1 h1. bind_ok (fail_if there taken) h1 λ u2 e2 h2.
      let free = passed there taken e2 in
      (
        sym (ok-injective h2),
        Absent-find_key UserRow.id row.id db.users
            (unset (find_user row.id db) (ground (arith, free))),
        Absent-find_key UserRow.normalized_email row.normalized_email db.users
            (unset (find_email_owner row.normalized_email db) (ground (arith, free))),
      )

-- A login identity was inserted.
pub add_identity_ok :
    (env : Env) (taken : IdentityError) (row : IdentityRow) (db : Db) {after : Db}
    → add_identity env taken row db ≡ ok after
    → after ≡ record db { identities = db.identities ++ row ∷ [] }
unfolding add_identity
add_identity_ok env taken row db h = bind_ok (attempt env insert_identity) h λ u1 e1 h1.
    bind_ok (fail_if (identity_taken row db.identities) taken) h1 λ u2 e2 h2. sym (ok-injective h2)
