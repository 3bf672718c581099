-- ===== src/Identity/Registration.antt =====
-- identity/adapters/postgres/registration.go: registration challenges of customers, their codes and
-- their rate limits.
pub mod Limits
pub mod Codes
pub mod Attempts
pub mod Registers
use b46_ordering_app_backend.Base.{
  ℕ, ◌+◌, ◌-◌, ◌%◌, ◌*◌, String, Bool, false, not, ◌&&◌, ◌||◌, Option, none, some, List, [], ◌∷◌,
  ◌++◌, Result, ok, err, ◌>>=◌, ◌>>◌, fail_if, or_fail, if◌then◌else◌, ltb, leb, ◌==◌, ◌=s=◌,
  find_first, update_where, keep,
}
use b46_ordering_app_backend.Base.Keys.{find_key}
use b46_ordering_app_backend.Identity.Domain.{
  Time, role_customer, User, PendingRegistration, Step, IdentityError, technical,
  invalid_registration, registration_cooldown, registration_rate_limited, count_rate, check_owner,
  store_pending, load_pending, update_code, count_attempt, insert_identity, consume_pending,
  clean_pending, clean_buckets, clean_cashiers,
}
use b46_ordering_app_backend.Identity.Tables.{
  Db, Env, PendingRow, CashierRow, BucketRow, is_set, has, attempt, transaction, statement,
}
use b46_ordering_app_backend.Identity.Sessions.{user_of}
use b46_ordering_app_backend.Identity.OAuth.{add_user, add_identity, new_user, find_email_owner}
use b46_ordering_app_backend.Identity.Accounts.{password_identity}

abbrev pub registration_email_hourly_limit : ℕ
registration_email_hourly_limit = 5

abbrev pub registration_ip_hourly_limit : ℕ
registration_ip_hourly_limit = 100

abbrev pub minute : Time
minute = 60 * 1000000000

abbrev pub hour : Time
hour = 60 * minute

abbrev pub in_bucket : String → Time → BucketRow → Bool
in_bucket key window b = b.bucket_key =s= key && b.window_started_at == window

abbrev pub count_one : BucketRow → BucketRow
count_one b = record b { request_count = b.request_count + 1 }

-- `INSERT ... ON CONFLICT DO UPDATE SET request_count = request_count + 1 RETURNING request_count`.
abbrev pub bump_found : String → Time → List BucketRow → Option BucketRow → ℕ × List BucketRow
bump_found key window rows none =
    (1, rows ++ record { bucket_key = key; window_started_at = window; request_count = 1 } ∷ [])
bump_found key window rows (some b) =
    (b.request_count + 1, update_where (in_bucket key window) count_one rows)

unfoldable pub bump : String → Time → List BucketRow → ℕ × List BucketRow
bump key window rows = bump_found key window rows (find_first (in_bucket key window) rows)

-- One round of the loop of registrationLimits.
unfoldable pub count_request :
    Env → String → ℕ → Time → List BucketRow → Result IdentityError (List BucketRow)
unfolding bump
count_request env key maximum window rows = do
  attempt env count_rate
  let counted = bump key window rows
  fail_if (ltb maximum counted.0) registration_rate_limited
  ok counted.1

-- now.Truncate(time.Hour).
abbrev pub window_of : Time → Time
window_of now = now - now % hour

unfoldable pub registration_limits : Env → String → String → Time → Db → Result IdentityError Db
unfolding count_request
registration_limits env email_key ip_key now db = do
  by_email ← count_request env email_key registration_email_hourly_limit (window_of now) db.buckets
  by_ip ← count_request env ip_key registration_ip_hourly_limit (window_of now) by_email
  ok (record db { buckets = by_ip })

abbrev pub pending_row : PendingRegistration → Bool → Time → PendingRow
pending_row value owned now = record {
  id = value.id;
  normalized_email = value.email;
  display_name = value.name;
  password_hash = if owned then none else some value.password_hash;
  code_hash = value.code_hash;
  email_rate_key = value.email_rate_key;
  eligible = not owned;
  attempt_count = 0;
  created_at = now;
  expires_at = value.expires_at;
  last_sent_at = now;
  consumed_at = none;
}

-- `INSERT ... ON CONFLICT (normalized_email) DO UPDATE`, which replaces every column that is read.
-- A row of another address that has the id violates the primary key.
unfoldable pub put_pending : PendingRow → List PendingRow → Option (List PendingRow)
put_pending row rows =
    if has (λ r. r.id =s= row.id && not (r.normalized_email =s= row.normalized_email)) rows
    then none
    else if has (λ r. r.normalized_email =s= row.normalized_email) rows
    then some (update_where (λ r. r.normalized_email =s= row.normalized_email) (λ r. row) rows)
    else some (rows ++ row ∷ [])

unfoldable pub begin_body :
    Env
    → PendingRegistration
    → String
    → Time
    → Db
    → Result IdentityError (Result IdentityError Bool × Db)
unfolding registration_limits put_pending
begin_body env value ip_key now db = do
  limited ← registration_limits env value.email_rate_key ip_key now db
  attempt env check_owner
  let owned = is_set (find_email_owner value.email limited)
  attempt env store_pending
  rows ←
      or_fail (put_pending (pending_row value owned now) limited.pending) (technical store_pending)
  ok (ok (not owned), record limited { pending = rows })

unfoldable pub begin_registration :
    Env → PendingRegistration → String → Time → Db → Result IdentityError Bool × Db
unfolding begin_body
begin_registration env value ip_key now db = transaction env (begin_body env value ip_key now) db

abbrev pub find_pending : String → Db → Option PendingRow
find_pending id db = find_key PendingRow.id id db.pending

abbrev pub resent : String → Time → Time → PendingRow → PendingRow
resent code_hash expires now r = record r {
  code_hash = code_hash;
  expires_at = expires;
  last_sent_at = now;
  attempt_count = 0;
}

abbrev pub set_pending : String → (PendingRow → PendingRow) → Db → Db
set_pending id f db = record db { pending = update_where (λ r. r.id =s= id) f db.pending }

unfoldable pub resend_body :
    Env
    → String
    → String
    → String
    → Time
    → Time
    → Db
    → Result IdentityError (Result IdentityError (String × Bool) × Db)
unfolding registration_limits
resend_body env id code_hash ip_key now expires db = do
  attempt env load_pending
  r ← or_fail (find_pending id db) invalid_registration
  fail_if (is_set r.consumed_at || not (ltb now r.expires_at)) invalid_registration
  fail_if (ltb now (r.last_sent_at + minute)) registration_cooldown
  limited ← registration_limits env r.email_rate_key ip_key now db
  attempt env update_code
  ok (ok (r.normalized_email, r.eligible), set_pending id (resent code_hash expires now) limited)

unfoldable pub resend_registration :
    Env → String → String → String → Time → Time → Db → Result IdentityError (String × Bool) × Db
unfolding resend_body
resend_registration env id code_hash ip_key now expires db =
    transaction env (resend_body env id code_hash ip_key now expires) db

abbrev pub one_attempt : PendingRow → PendingRow
one_attempt r = record r { attempt_count = r.attempt_count + 1 }

abbrev pub used_up : Time → PendingRow → PendingRow
used_up now r = record r { consumed_at = some now }

-- A wrong code, or a challenge that cannot create an account: the attempt is counted.
unfoldable pub refuse_code :
    Env → String → Db → Result IdentityError (Result IdentityError User × Db)
refuse_code env id db = do
  attempt env count_attempt
  ok (err invalid_registration, set_pending id one_attempt db)

-- The right code of an eligible challenge: the account is created.
unfoldable pub accept_code :
    Env → PendingRow → String → Time → Db → Result IdentityError (Result IdentityError User × Db)
unfolding add_user add_identity
accept_code env r hash now db = do
  let u = new_user env r.display_name r.normalized_email role_customer
  created ← add_user env invalid_registration u db
  named ←
      add_identity env (technical insert_identity) (password_identity u.id r.normalized_email hash)
        created
  attempt env consume_pending
  ok (ok (user_of u), set_pending r.id (used_up now) named)

unfoldable pub check_code :
    Env
    → PendingRow
    → String
    → Time
    → Db
    → Option String
    → Result IdentityError (Result IdentityError User × Db)
unfolding refuse_code accept_code
check_code env r code_hash now db none = refuse_code env r.id db
check_code env r code_hash now db (some hash) =
    if not (r.code_hash =s= code_hash) || not r.eligible
    then refuse_code env r.id db
    else accept_code env r hash now db

unfoldable pub verify_body :
    Env → String → String → Time → Db → Result IdentityError (Result IdentityError User × Db)
unfolding check_code
verify_body env id code_hash now db = do
  attempt env load_pending
  r ← or_fail (find_pending id db) invalid_registration
  fail_if (is_set r.consumed_at || not (ltb now r.expires_at) || leb 5 r.attempt_count)
      invalid_registration
  check_code env r code_hash now db r.password_hash

unfoldable pub verify_registration :
    Env → String → String → Time → Db → Result IdentityError User × Db
unfolding verify_body
verify_registration env id code_hash now db = transaction env (verify_body env id code_hash now) db

-- `consumed_at < $1`, which is not true of a null.
abbrev pub consumed_before : Option Time → Time → Bool
consumed_before none now = false
consumed_before (some t) now = ltb t now

abbrev pub stays_pending : Time → PendingRow → Bool
stays_pending now r = not (leb r.expires_at now || consumed_before r.consumed_at now)

abbrev pub stays_cashier : Time → CashierRow → Bool
stays_cashier now r = not (leb r.expires_at now || consumed_before r.consumed_at now)

abbrev pub next_statement :
    Env
    → Step
    → (Db → Db)
    → Result IdentityError (Unit {0}) × Db
    → Result IdentityError (Unit {0}) × Db
next_statement env s write (err e, db) = (err e, db)
next_statement env s write (ok u, db) = statement env s write db

-- Three statements outside a transaction; the first that fails ends the call.
unfoldable pub delete_expired_registrations : Env → Time → Db → Result IdentityError (Unit {0}) × Db
delete_expired_registrations env now db =
    next_statement env clean_cashiers
      (λ d. record d { pending_cashiers = keep (stays_cashier now) d.pending_cashiers })
      (next_statement env clean_buckets
        (λ d. record d { buckets = keep (λ b. leb (now - 2 * hour) b.window_started_at) d.buckets })
        (statement env clean_pending
          (λ d. record d { pending = keep (stays_pending now) d.pending }) db))
